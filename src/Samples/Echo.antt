-- ===== src/Samples/Echo.antt =====
-- samples/server_prj/main.cc: Connect2Client sends back what it gets, up to the first "del".
use libevent_cpp.Prelude.{
  ℕ, ◌≤◌, ◌≡◌, refl, ap, sym, ◌∙◌, ◌⊎◌, inl, inr, Bool, true, false, ◌||◌, some, List, [], ◌∷◌,
  ◌++◌, arith, length, length-append, append_assoc, append-nil, Bool-cases, if◌then◌else◌,
}
use libevent_cpp.Prelude.Int.{is_zero}
use libevent_cpp.Prelude.Outcome.{Outcome, ok, fault, out_of_fuel, ◌>>=◌}
use libevent_cpp.Env.{Env}
use libevent_cpp.Con.{Con, deref}
use libevent_cpp.Con.Frames.{frame, frame_all}
use libevent_cpp.Con.Framing.{IsPayload, frame_all-append}
use libevent_cpp.Con.Receive.{IsStable, pack}
use libevent_cpp.Con.Serving.{Answer, keeps, leaves, Contract}
use libevent_cpp.Con.Send.{send_data_pack}
use libevent_cpp.Con.Sending.{IsUp}
use libevent_cpp.Con.Sending.Reliable.{Reliable, Took, send_data_pack-Took}
use libevent_cpp.Con.Valid.{attached}
use libevent_cpp.ConMgr.{find_conn, post_del_conn}
use libevent_cpp.ConMgr.Owned
use libevent_cpp.Listener.{Manages, svr_handlers, svr_disconnect}
use libevent_cpp.Listener.Accept.{svr_disconnect_up}
use libevent_cpp.Samples.{c_string, same_text}
use libevent_cpp.Samples.Server.{del_text, read_again, plain, server_on_recv, server}

-- A message with a zero byte in it, as Str2MsgPack makes it.
abbrev pub IsText : List ℕ → Type 0
IsText m = (s : List ℕ) × (c_string m ≡ ok s)

abbrev pub AllTexts : List (List ℕ) → Type 0
AllTexts [] = Unit {0}
AllTexts (m ∷ ms) = IsText m × AllTexts ms

abbrev is_del : Outcome (List ℕ) → Bool
is_del out_of_fuel = false
is_del (fault why) = false
is_del (ok s) = same_text s del_text

abbrev pub any_del : List (List ℕ) → Bool
any_del [] = false
any_del (m ∷ ms) = is_del (c_string m) || any_del ms

pub any_del-append : (ms ns : List (List ℕ)) → any_del (ms ++ ns) ≡ any_del ms || any_del ns
any_del-append [] ns = refl
any_del-append (m ∷ ms) ns = elim (Bool-cases (is_del (c_string m))) [
  | inl t ↦ rw t refl
  | inr f ↦ rw f (any_del-append ms ns)
]

pub AllTexts-left : (ms ns : List (List ℕ)) → AllTexts (ms ++ ns) → AllTexts ms
AllTexts-left [] ns h = tt
AllTexts-left (m ∷ ms) ns h = (h.0, AllTexts-left ms ns h.1)

pub AllTexts-last : (ms : List (List ℕ)) (m : List ℕ) → AllTexts (ms ++ m ∷ []) → IsText m
AllTexts-last [] m h = h.0
AllTexts-last (n ∷ ms) m h = AllTexts-last ms m h.1

-- All of `out` and the frames of `ms` is within the limit, if there is one.
abbrev pub Fits : ℕ → List ℕ → List (List ℕ) → Type 0
Fits limit out ms = (limit ≡ 0) ⊎ (length (out ++ frame_all ms) ≤ limit)

pub Fits-left :
    (limit : ℕ) (out : List ℕ) (ms ns : List (List ℕ))
    → Fits limit out (ms ++ ns)
    → Fits limit out ms
Fits-left limit out ms ns (inl e) = inl e
Fits-left limit out ms ns (inr h) = inr (
    omega (
      arith,
      h,
      ap length (frame_all-append ms ns),
      length-append (frame_all ms) (frame_all ns),
      length-append out (frame_all ms),
      length-append out (frame_all (ms ++ ns)),
    ))

module _ {E : Env} (M : Manages (E.User)) (id bev p : ℕ) (u : E.User) (limit : ℕ)
    (out : List ℕ) where
  -- An open connection that has sent back `ms`.
  pub record Echoed (ms : List (List ℕ)) (c : Con E) (b : E.Bev) : Type 0 where
    pub up : IsUp bev c b
    pub output_is : E.output b ≡ out ++ frame_all ms
    pub user_is : c.user ≡ u
    pub limit_is : c.m_msbs ≡ limit
    pub no_del : any_del ms ≡ false

  -- A connection that was dropped, and posted for deletion, at the last of `ms`.
  pub record Deleted (ms : List (List ℕ)) (c : Con E) : Type 0 where
    pub closed : is_zero c.m_fd ≡ true
    pub posted : M.get c.user ≡ (post_del_conn id (M.get u)).0
    pub last_del : any_del ms ≡ true

  pub Echoed-IsStable : (ms : List (List ℕ)) → IsStable bev (Echoed ms)
  Echoed-IsStable ms c b n b' freed v same = record {
    up = record {
      attached = v.up.attached;
      alive = v.up.alive;
      live = ground arith;
      is_open = v.up.is_open;
      connected = v.up.connected;
    };
    output_is = same ∙ v.output_is;
    user_is = v.user_is;
    limit_is = v.limit_is;
    no_del = v.no_del;
  }

  -- Once the message was sent back, the connection goes on, or is dropped if it says "del".
  server_on_recv_run :
      (m s : List ℕ) (c c' : Con E) (b b' : E.Bev)
      → c_string m ≡ ok s
      → send_data_pack (svr_handlers M id plain) (pack m) c ≡ ok (c', true)
      → IsUp bev c b
      → IsUp bev c' b'
      → server_on_recv M id (pack m) c
        ≡ (if same_text s del_text then (svr_disconnect M id plain c' >>= λ d. ok d.0) else ok c')
  unfolding server_on_recv read_again
  server_on_recv_run m s c c' b b' text sends v v' =
      rw text (rw sends (rw v.attached (rw (v'.live, deref) refl)))

  Took-Echoed :
      (ms : List (List ℕ)) (m : List ℕ) (c c' : Con E) (b b' : E.Bev)
      → Echoed ms c b
      → Took bev c b m c' b'
      → any_del (m ∷ []) ≡ false
      → Echoed (ms ++ m ∷ []) c' b'
  unfolding frame_all
  Took-Echoed ms m c c' b b' v t h = record {
    up = t.up;
    output_is =
        t.output_more
        ∙ ap (λ xs. xs ++ frame m) v.output_is
        ∙ append_assoc out (frame_all ms) (frame m)
        ∙ ap (◌++◌ out) (
            ap (◌++◌ (frame_all ms)) (sym (append-nil (frame m)))
            ∙ sym (frame_all-append ms (m ∷ [])));
    user_is = t.user_same ∙ v.user_is;
    limit_is = t.limit_same ∙ v.limit_is;
    no_del = any_del-append ms (m ∷ []) ∙ rw (v.no_del, h) refl;
  }

  module _ (rel : Reliable E) (owned : Owned.IsValid (M.get u))
      (found : find_conn id (M.get u) ≡ some p) where
    pub server-Answer :
        (ms : List (List ℕ)) (m : List ℕ) (c : Con E) (b : E.Bev)
        → Echoed ms c b
        → IsPayload m
        → AllTexts (ms ++ m ∷ []) × Fits limit out (ms ++ m ∷ [])
        → Answer bev c b
            (Echoed (ms ++ m ∷ []))
            (Deleted (ms ++ m ∷ []))
            ((server M id).on_recv (pack m) c)
    unfolding server svr_handlers
    server-Answer ms m c b v pay can =
        let (s, text) = AllTexts-last ms m can.0 in
        let room : (c.m_msbs ≡ 0) ⊎ (length (E.output b) ≤ c.m_msbs) =
          rw (v.limit_is, v.output_is) (Fits-left limit out ms (m ∷ []) can.1) in
        let (c1, b1, sends, took) =
          send_data_pack-Took (svr_handlers M id plain) bev m c b rel v.up pay room in
        let run = server_on_recv_run m s c c1 b b1 text sends v.up took.up in
        elim (Bool-cases (same_text s del_text)) [
          | inr f ↦
              keeps c1 b1 (run ∙ rw f refl) took.up.live took.input_same took.up.is_open
                took.mode_same (Took-Echoed ms m c c1 b b1 v took (rw (text, f) refl))
          | inl t ↦
              let user1 : c1.user ≡ u = took.user_same ∙ v.user_is in
              let (d, drops, shut, gone, vwdc, freed, posted, bare, there) =
                svr_disconnect_up M id p plain c1
                  (attached bev b1 took.up.attached took.up.live took.up.is_open took.up.alive tt)
                  took.up.is_open (rw user1 owned) (rw user1 found) in
              leaves d (run ∙ rw t (rw drops refl)) (freed bev took.up.attached) shut
                (there ∙ took.mode_same.1)
                (record {
                  closed = shut;
                  posted = rw user1 at posted;
                  last_del = any_del-append ms (m ∷ []) ∙ rw (v.no_del, text, t) refl;
                })
        ]

    abbrev pub echoing : Contract {E = E} (server M id) bev
    echoing = record {
      After = Echoed;
      Closed = Deleted;
      Can = λ ms. AllTexts ms × Fits limit out ms;
      Can-prefix = λ ms ns h. (AllTexts-left ms ns h.0, Fits-left limit out ms ns h.1);
      After-IsStable = Echoed-IsStable;
      on_recv_lem = λ ms m c b v live is_open pay can. server-Answer ms m c b v pay can;
    }
