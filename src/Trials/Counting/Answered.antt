-- ===== src/Trials/Counting/Answered.antt =====
-- test/combine/echo_client.cc, MyConnectClient: what an answer that comes back does.
use libevent_cpp.Prelude.{
  ℕ, ◌+◌, ◌^◌, ◌≤◌, ◌<◌, ◌≡◌, refl, ap, sym, ◌∙◌, ◌⊎◌, inl, inr, true, false, List, [], ◌∷◌, ◌++◌,
  arith, length, append-nil, ltb, ◌==◌, ==_iff,
}
use libevent_cpp.Prelude.Outcome.{ok}
use libevent_cpp.Bytes.{load_u32, store_u32, load_u32-store_u32, length-store_u32}
use libevent_cpp.Env.{Env}
use libevent_cpp.Con.{Con}
use libevent_cpp.Con.Frames.{frame}
use libevent_cpp.Con.Framing.{IsPayload}
use libevent_cpp.Con.Receive.{IsStable, pack}
use libevent_cpp.Con.Serving.{Answer, IsSame, keeps}
use libevent_cpp.Con.Sending.{IsUp}
use libevent_cpp.Con.Sending.Reliable.{Reliable, send_data_pack-Took}
use libevent_cpp.Samples.Server.{plain}
use libevent_cpp.Trials.Flood.{Member}
use libevent_cpp.Trials.Counting.{Counter, last_cnt, number, send_cnt, count_on_recv, counting}

pub number-IsPayload : (n : ℕ) → IsPayload (store_u32 n)
number-IsPayload n = record {
  nonempty = omega (arith, length-store_u32 n);
  fits = omega (arith, length-store_u32 n);
}

load_number : (n : ℕ) → n < 2 ^ 32 → load_u32 (store_u32 n) ≡ n
load_number n h = ap load_u32 (sym (append-nil (store_u32 n))) ∙ load_u32-store_u32 n [] h

module _ {E : Env} (G : Member (E.User) Counter) where
  -- The right number comes back: the assertions hold.
  pub count_on_recv_run :
      (n : ℕ) (c : Con E)
      → (G.get c.user).m_cnt ≡ n
      → n < last_cnt
      → (counting G).on_recv (number n) c ≡ send_cnt G c
  unfolding counting count_on_recv
  count_on_recv_run n c e h =
      let same : (load_u32 (store_u32 n) == (G.get c.user).m_cnt) ≡ true =
        rw (load_number n (omega (arith, h)), e) ((==_iff n n).1 refl) in
      let short : ltb (length (store_u32 n)) 4 ≡ false = rw (length-store_u32 n) refl in
      let four : (length (store_u32 n) == 4) ≡ true = rw (length-store_u32 n) refl in
      rw (short, same, four) refl

  module _ (bev : ℕ) (rel : Reliable E) where
    -- The next number is counted and sent.
    send_cnt-Took :
        (n : ℕ) (c : Con E) (b : E.Bev)
        → G.get c.user ≡ record { m_cnt = n; in_map = true }
        → n + 1 < last_cnt
        → IsUp bev c b
        → (c.m_msbs ≡ 0) ⊎ (length (E.output b) ≤ c.m_msbs)
        → (c' : Con E) × (b' : E.Bev) × (send_cnt G c ≡ ok c')
          × IsUp bev c' b'
          × (E.input b' ≡ E.input b)
          × (E.output b' ≡ E.output b ++ frame (store_u32 (n + 1)))
          × (G.get c'.user ≡ record { m_cnt = n + 1; in_map = true })
          × (c'.m_msbs ≡ c.m_msbs)
          × IsSame c' c
    unfolding send_cnt
    send_cnt-Took n c b k h v room =
        let c1 : Con E = record c {
          user = G.set (record { m_cnt = n + 1; in_map = true }) c.user;
        } in
        let v1 : IsUp bev c1 b = record {
          attached = v.attached;
          alive = v.alive;
          live = v.live;
          is_open = v.is_open;
          connected = v.connected;
        } in
        let (c2, b2, run, t) =
          send_data_pack-Took plain bev (store_u32 (n + 1)) c1 b rel v1 (number-IsPayload (n + 1))
            room in
        let more : ltb (n + 1) last_cnt ≡ true = ground (arith, h) in
        (
          c2,
          b2,
          rw (k, more) (rw run refl),
          t.up,
          t.input_same,
          t.output_more,
          ap G.get t.user_same ∙ G.get-set (record { m_cnt = n + 1; in_map = true }) c.user,
          t.limit_same,
          t.mode_same,
        )

    module _ (n limit : ℕ) (out : List ℕ) where
      -- With no answer yet, or one.
      pub record Counted (ms : List (List ℕ)) (c : Con E) (b : E.Bev) : Type 0 where
        pub up : IsUp bev c b
        pub count_is : G.get c.user ≡ record { m_cnt = n + length ms; in_map = true }
        pub limit_is : c.m_msbs ≡ limit
        pub output_is :
            E.output b ≡ out ++ (elim ms [ [] ↦ [] | m ∷ rest ↦ frame (store_u32 (n + 1)) ])

      -- Only the answer comes.
      abbrev pub OnlyAnswer : List (List ℕ) → Type 0
      OnlyAnswer ms = (ms ≡ []) ⊎ (ms ≡ store_u32 n ∷ [])

      pub OnlyAnswer-prefix : (ms ns : List (List ℕ)) → OnlyAnswer (ms ++ ns) → OnlyAnswer ms
      OnlyAnswer-prefix [] ns h = inl refl
      OnlyAnswer-prefix (m ∷ []) ns (inl e) = cc
      OnlyAnswer-prefix (m ∷ []) ns (inr e) =
          let same : m ≡ store_u32 n = cc e in inr (rw same refl)
      OnlyAnswer-prefix (m ∷ k ∷ ms) ns (inl e) = cc
      OnlyAnswer-prefix (m ∷ k ∷ ms) ns (inr e) = cc

      pub Counted-IsStable : (ms : List (List ℕ)) → IsStable bev (Counted ms)
      Counted-IsStable ms c b k b' freed v same = record {
        up = record {
          attached = v.up.attached;
          alive = v.up.alive;
          live = ground arith;
          is_open = v.up.is_open;
          connected = v.up.connected;
        };
        count_is = v.count_is;
        limit_is = v.limit_is;
        output_is = same ∙ v.output_is;
      }

      pub counting-Answer :
          (ms : List (List ℕ)) (m : List ℕ) (c : Con E) (b : E.Bev)
          → n + 1 < last_cnt
          → (limit ≡ 0) ⊎ (length out ≤ limit)
          → Counted ms c b
          → OnlyAnswer (ms ++ m ∷ [])
          → Answer bev c b (Counted (ms ++ m ∷ [])) (λ _. ⊥) ((counting G).on_recv (pack m) c)
      counting-Answer (k ∷ []) m c b h room v (inl e) = cc
      counting-Answer (k ∷ []) m c b h room v (inr e) = cc
      counting-Answer (k ∷ l ∷ ms) m c b h room v (inl e) = cc
      counting-Answer (k ∷ l ∷ ms) m c b h room v (inr e) = cc
      counting-Answer [] m c b h room v (inl e) = cc
      counting-Answer [] m c b h room v (inr e) =
          let is_number : m ≡ store_u32 n = cc e in
          let bare : E.output b ≡ out = v.output_is ∙ append-nil out in
          let zero_more : n + 0 ≡ n = omega arith in
          let count : G.get c.user ≡ record { m_cnt = n; in_map = true } =
            rw zero_more at v.count_is in
          let (c1, b1, run, up, input, more, count1, limit1, same) =
            send_cnt-Took n c b count h v.up (rw (v.limit_is, bare) room) in
          let run1 : (counting G).on_recv (pack m) c ≡ ok c1 =
            rw is_number
              (count_on_recv_run n c (ap Counter.m_cnt count) (omega (arith, h)) ∙ run) in
          keeps c1 b1 run1 up.live input up.is_open same (record {
            up = up;
            count_is = count1;
            limit_is = limit1 ∙ v.limit_is;
            output_is = more ∙ ap (λ xs. xs ++ frame (store_u32 (n + 1))) bare;
          })
