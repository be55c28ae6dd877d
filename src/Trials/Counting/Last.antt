-- ===== src/Trials/Counting/Last.antt =====
-- test/combine/echo_client.cc, MyConnectClient: each answer leads to the next number, and the last
-- one to the end of the object.
use libevent_cpp.Prelude.{
  ℕ, ◌+◌, ◌≤◌, ◌<◌, ◌≡◌, refl, ap, sym, subst, ltb→lt, ◌⊎◌, inl, inr, true, false, some, List, [],
  ◌∷◌, ◌++◌, arith, length, append-nil, ltb, Bool-cases,
}
use libevent_cpp.Prelude.Outcome.{ok, fault, Fault, Safe}
use libevent_cpp.Bytes.{wire_u32, auto_hton32, store_u32}
use libevent_cpp.Env.{Env}
use libevent_cpp.Con.{Con, delete_this}
use libevent_cpp.Con.Deleting.{RecvDeletes, delete_this_gone, conn_read_callback-deleted}
use libevent_cpp.Con.Delivery.{Ends, waits, drops, closes, conn_read_callback-Ends}
use libevent_cpp.Con.Frames.{unframe, frame, frame_all}
use libevent_cpp.Con.Framing.{unframe-frame_all}
use libevent_cpp.Con.Read.{conn_read_callback_no_cp}
use libevent_cpp.Con.Receive.{Holds}
use libevent_cpp.Con.Serving.{Contract}
use libevent_cpp.Con.Sending.{IsUp}
use libevent_cpp.Con.Sending.Reliable.{Reliable}
use libevent_cpp.Trials.Flood.{Member}
use libevent_cpp.Trials.Counting.{
  Counter, last_cnt, number, send_cnt, free_my_connect_client, counting,
}
use libevent_cpp.Trials.Counting.Answered.{
  number-IsPayload, count_on_recv_run, Counted, OnlyAnswer, OnlyAnswer-prefix, Counted-IsStable,
  counting-Answer,
}

module _ {E : Env} (G : Member (E.User) Counter) (bev : ℕ) (rel : Reliable E) where
  abbrev numbered :
      (n limit : ℕ) (out : List ℕ)
      → n + 1 < last_cnt
      → (limit ≡ 0) ⊎ (length out ≤ limit)
      → Contract {E = E} (counting {E = E} G) bev
  numbered n limit out h room = record {
    After = Counted G bev rel n limit out;
    Closed = λ ms c. ⊥;
    Can = OnlyAnswer G bev rel n limit out;
    Can-prefix = OnlyAnswer-prefix G bev rel n limit out;
    After-IsStable = Counted-IsStable G bev rel n limit out;
    on_recv_lem = λ ms m c b v live is_open pay can.
        counting-Answer G bev rel n limit out ms m c b h room v can;
  }

  -- The last number: the object is deleted.
  send_cnt_last :
      (c : Con E) (b : E.Bev)
      → G.get c.user ≡ record { m_cnt = 2999; in_map = true }
      → c.m_buf_e ≡ some bev
      → c.bevs bev ≡ some b
      → Safe (λ d. d.is_deleted ≡ true) (send_cnt G c)
  unfolding send_cnt free_my_connect_client
  send_cnt_last c b k a l =
      let u = G.set (record { m_cnt = 3000; in_map = true }) c.user in
      let d : Con E = record c { user = G.set (record { m_cnt = 3000; in_map = false }) u } in
      let run : send_cnt G c ≡ delete_this d =
        rw (k, G.get-set (record { m_cnt = 3000; in_map = true }) c.user) refl in
      rw run (delete_this_gone bev d b a l)

  last-RecvDeletes :
      RecvDeletes {E = E}
        (counting {E = E} G)
        bev
        (λ d b. G.get d.user ≡ record { m_cnt = 2999; in_map = true })
        (number 2999)
  last-RecvDeletes c b k a l f alive =
      rw (count_on_recv_run G 2999 c (ap Counter.m_cnt k) (omega arith)) (send_cnt_last c b k a l)

  goes_on :
      (n : ℕ) (c : Con E) (b : E.Bev)
      → n + 1 < last_cnt
      → (c.m_msbs ≡ 0) ⊎ (length (E.output b) ≤ c.m_msbs)
      → IsUp bev c b
      → Holds bev c b (frame_all (store_u32 n ∷ []))
      → G.get c.user ≡ record { m_cnt = n; in_map = true }
      → (c' : Con E) × (b' : E.Bev) × (conn_read_callback_no_cp (counting G) bev c ≡ ok c')
        × IsUp bev c' b'
        × Holds bev c' b' []
        × (G.get c'.user ≡ record { m_cnt = n + 1; in_map = true })
        × (E.output b' ≡ E.output b ++ frame (store_u32 (n + 1)))
  goes_on n c b h room up v k =
      let p = frame_all (store_u32 n ∷ []) in
      let K = numbered n c.m_msbs (E.output b) h room in
      let parsed : unframe p ≡ record { msgs = store_u32 n ∷ []; rest = []; bad = false } =
        unframe-frame_all (store_u32 n ∷ []) (number-IsPayload n, tt) in
      let zero_more : n + 0 ≡ n = omega arith in
      let start : Counted G bev rel n c.m_msbs (E.output b) [] c b = record {
        up = up;
        count_is = rw zero_more k;
        limit_is = refl;
        output_is = sym (append-nil (E.output b));
      } in
      let ends =
        conn_read_callback-Ends (counting G) bev K [] c b p v start (rw parsed (inr refl)) in
      elim (subst (λ q. Ends (counting G) bev K [] q (conn_read_callback_no_cp (counting G) bev c))
        parsed ends) [
          | waits c1 b1 run v1 after good ↦
              (c1, b1, run, after.up, v1, after.count_is, after.output_is)
          | drops c1 b1 run v1 after bad ↦ cc
          | closes c1 ms later cut run gone closed ↦ absurd closed
        ]

  ends :
      (c : Con E) (b : E.Bev)
      → Holds bev c b (frame_all (store_u32 2999 ∷ []))
      → G.get c.user ≡ record { m_cnt = 2999; in_map = true }
      → IsUp bev c b
      → conn_read_callback_no_cp (counting G) bev c ≡ fault Fault.use_after_free
  unfolding frame_all frame store_u32 auto_hton32 wire_u32
  ends c b v k up =
      conn_read_callback-deleted (counting {E = E} G) bev
        (λ d b. G.get d.user ≡ record { m_cnt = 2999; in_map = true }) c b
        (frame_all (store_u32 2999 ∷ [])) (λ d b2 n b3 freed e f. e) k v up.attached (omega arith)
        refl last-RecvDeletes

  -- The number that MyConnectClient waits for is in its input, on a connection that is up and within
  -- its limit, where libevent takes every write. Up to 2998, the callback counts on and puts the next
  -- number into the output; at 2999, OnRecv deletes the object, and the callback goes on to use it.
  pub count_arrives :
      (n : ℕ) (c : Con E) (b : E.Bev)
      → IsUp bev c b
      → Holds bev c b (frame_all (store_u32 n ∷ []))
      → G.get c.user ≡ record { m_cnt = n; in_map = true }
      → n < last_cnt
      → (c.m_msbs ≡ 0) ⊎ (length (E.output b) ≤ c.m_msbs)
      → ((c' : Con E) × (b' : E.Bev) × (n + 1 < last_cnt)
          × (conn_read_callback_no_cp (counting G) bev c ≡ ok c')
          × IsUp bev c' b'
          × Holds bev c' b' []
          × (G.get c'.user ≡ record { m_cnt = n + 1; in_map = true })
          × (E.output b' ≡ E.output b ++ frame (store_u32 (n + 1))))
        ⊎ ((n + 1 ≡ last_cnt)
            × (conn_read_callback_no_cp (counting G) bev c ≡ fault Fault.use_after_free))
  count_arrives n c b up v k h room = elim (Bool-cases (ltb (n + 1) last_cnt)) [
    | inl more ↦
        let small : n + 1 < last_cnt = ltb→lt (n + 1) last_cnt more in
        let (c', b', run, up', v', count, out) = goes_on n c b small room up v k in
        inl (c', b', small, run, up', v', count, out)
    | inr no_more ↦
        let last : n ≡ 2999 = ground (arith, no_more, h) in
        inr (omega (arith, last), ends c b (rw last at v) (rw last at k) up)
  ]
