-- ===== src/Con/Session.antt =====
-- A connection over time: bytes arrive in pieces of any size, and libevent calls ConCom::readcb
-- after each piece.
use libevent_cpp.Prelude.{
  ℕ, ◌+◌, ◌^◌, ◌<◌, ◌≡◌, refl, ap, sym, ◌∙◌, subst, false, none, some, List, [], ◌∷◌, ◌++◌, arith,
  length, drop, drop-append_le, length-append, append_assoc, append-nil, Bool-cases, inl, inr,
}
use libevent_cpp.Prelude.Outcome.{Outcome, ok, ◌>>=◌}
use libevent_cpp.Bytes.{
  store_u32, wire_u32-append, AllBytes, AllBytes-append, AllBytes-append_left,
  AllBytes-append_right,
}
use libevent_cpp.Env.{Env}
use libevent_cpp.Con.{Con, Handlers, put, settle}
use libevent_cpp.Con.Frames.{Parsed, stopped, prepend, unframe, frame_all}
use libevent_cpp.Con.Framing.{
  unframe-append, unframe-append_bad, unframe-frame_all, AllPayloads, unframe-rest, length-rest,
}
use libevent_cpp.Con.Read.{conn_read_callback_no_cp, readcb}
use libevent_cpp.Con.Receive.{Holds}
use libevent_cpp.Con.Serving.{Contract}
use libevent_cpp.Con.Delivery.{Ends, waits, drops, closes, conn_read_callback-Ends}

abbrev pub flatten : List (List ℕ) → List ℕ
flatten [] = []
flatten (xs ∷ xss) = xs ++ flatten xss

module _ {E : Env} (U : Handlers E) (bev : ℕ) where
  -- One piece arrives. Nothing is reported of a bufferevent that was freed.
  unfoldable pub arrive : List ℕ → Con E → Outcome (Con E)
  unfolding put settle
  arrive xs c = elim (c.bevs bev) [
    | none ↦ ok c
    | some b ↦ readcb U bev (put bev (E.receive b xs) (settle c))
  ]

  unfoldable pub session : List (List ℕ) → Con E → Outcome (Con E)
  session [] c = ok c
  session (xs ∷ xss) c = arrive xs c >>= λ c'. session xss c'

  readcb_framed :
      (c : Con E) → c.m_is_raw_read_cb ≡ false → readcb U bev c ≡ conn_read_callback_no_cp U bev c
  unfolding readcb
  readcb_framed c e = rw e

  arrive_run :
      (xs : List ℕ) (c : Con E) (b : E.Bev)
      → c.bevs bev ≡ some b
      → c.m_is_raw_read_cb ≡ false
      → arrive xs c ≡ conn_read_callback_no_cp U bev (put bev (E.receive b xs) (settle c))
  unfolding arrive settle
  arrive_run xs c b live framed =
      rw (live, arrive) (readcb_framed (put bev (E.receive b xs) (settle c)) (unfold put in framed))

  arrive_gone : (xs : List ℕ) (c : Con E) → c.bevs bev ≡ none → arrive xs c ≡ ok c
  unfolding arrive
  arrive_gone xs c e = rw (e, arrive)

  session_gone : (xss : List (List ℕ)) (c : Con E) → c.bevs bev ≡ none → session xss c ≡ ok c
  unfolding session
  session_gone [] c e = refl
  session_gone (xs ∷ xss) c e = rw (arrive_gone xs c e) (session_gone xss c e)

  -- Bytes that come in are held behind those that wait.
  receive-Holds :
      (xs : List ℕ) (c : Con E) (b : E.Bev) (p : List ℕ)
      → Holds bev c b p
      → AllBytes xs
      → length p + length xs < 2 ^ 31
      → Holds bev (put bev (E.receive b xs) (settle c)) (E.receive b xs) (p ++ xs)
  unfolding put settle
  receive-Holds xs c b p v h small = record {
    live = ground arith;
    is_open = v.is_open;
    framed = v.framed;
    alive = v.alive;
    bytes = AllBytes-append p xs v.bytes h;
    small = omega (arith, length-append p xs);
    image = elim v.image [
      | inl (z, e) ↦ inl (z, E.input-receive b xs ∙ ap (λ ys. ys ++ xs) e)
      | inr (n, l, g, e) ↦ inr (
        n ∙ sym (wire_u32-append p xs l),
        omega (arith, length-append p xs),
        g,
        E.input-receive b xs
            ∙ ap (λ ys. ys ++ xs) e
            ∙ append_assoc (store_u32 c.m_rev_pack_len) (drop 4 p) xs
            ∙ ap (◌++◌ (store_u32 c.m_rev_pack_len)) (sym (drop-append_le 4 p xs l)),
      )
    ];
  }

  bad-prefix : (p q : List ℕ) → (unframe (p ++ q)).bad ≡ false → (unframe p).bad ≡ false
  bad-prefix p q h = elim (Bool-cases (unframe p).bad) [
    | inl b ↦ cc (ap (λ (r : Parsed). r.bad) (unframe-append_bad p q b))
    | inr g ↦ g
  ]

  -- How a session ends on a stream whose parse is `q`, after the messages `done`. The connection is
  -- open, has taken every whole message and keeps what is left over; or OnRecv dropped it at some
  -- message, and nothing came after that.
  pub data Lasts (K : Contract U bev) (done : List (List ℕ)) (q : Parsed) (r : Outcome (Con E))
      : Type 0 where
    still :
        (c : Con E) (b : E.Bev)
        → r ≡ ok c
        → Holds bev c b q.rest
        → K.After (done ++ q.msgs) c b
        → Lasts K done q r
    ended :
        (c : Con E) (ms later : List (List ℕ))
        → q.msgs ≡ ms ++ later
        → r ≡ ok c
        → c.bevs bev ≡ none
        → K.Closed (done ++ ms) c
        → Lasts K done q r

  module _ (K : Contract U bev) where
    pub arrive-Ends :
        (done : List (List ℕ)) (xs : List ℕ) (c : Con E) (b : E.Bev) (p : List ℕ)
        → Holds bev c b p
        → K.After done c b
        → K.Can (done ++ (unframe (p ++ xs)).msgs)
        → AllBytes xs
        → length p + length xs < 2 ^ 31
        → Ends U bev K done (unframe (p ++ xs)) (arrive xs c)
    unfolding put settle
    arrive-Ends done xs c b p v after can h small = rw (arrive_run xs c b v.live v.framed) (
        conn_read_callback-Ends U bev K done (put bev (E.receive b xs) (settle c)) (E.receive b xs)
          (p ++ xs) (receive-Holds xs c b p v h small)
          (K.After-IsStable done c b c.m_rev_pack_len (E.receive b xs) (λ q. none) after
            (E.output-receive b xs))
          can)

    -- What the rest of a session does, after a first part that took the messages `ms`.
    Lasts-prepend :
        (done ms : List (List ℕ)) (q : Parsed) (r r' : Outcome (Con E))
        → r ≡ r'
        → Lasts K (done ++ ms) q r'
        → Lasts K done (prepend ms q) r
    Lasts-prepend done ms q r r' er (still c b e v f) =
        still c b (er ∙ e) v (rw (append_assoc done ms q.msgs) at f)
    Lasts-prepend done ms q r r' er (ended c ns later split e l f) =
        ended c (ms ++ ns) later (ap (◌++◌ ms) split ∙ sym (append_assoc ms ns later)) (er ∙ e) l
          (rw (append_assoc done ms ns) at f)

    -- A session, under a contract of OnRecv by which it can take the messages of the stream: on an
    -- open connection that holds no whole message, however the bytes of the stream (less than 2^31,
    -- with no bad length) are cut into pieces, the connection delivers the whole messages of the
    -- stream, in order, and keeps what is left over; or it delivers them up to the one at which
    -- OnRecv dropped the connection, and nothing after that.
    pub session-Lasts :
        (xss done : List (List ℕ)) (c : Con E) (b : E.Bev) (p : List ℕ)
        → Holds bev c b p
        → K.After done c b
        → K.Can (done ++ (unframe (p ++ flatten xss)).msgs)
        → unframe p ≡ stopped p false
        → AllBytes (flatten xss)
        → length p + length (flatten xss) < 2 ^ 31
        → (unframe (p ++ flatten xss)).bad ≡ false
        → Lasts K done (unframe (p ++ flatten xss)) (session xss c)
    unfolding session
    session-Lasts [] done c b p v after can idle h small good =
        rw (append-nil p, idle) (still c b refl v (rw (append-nil done) after))
    session-Lasts (xs ∷ xss) done c b p v after can idle h small good =
        let ys = flatten xss in
        let q1 = unframe (p ++ xs) in
        let q2 = unframe (q1.rest ++ ys) in
        let whole : p ++ (xs ++ ys) ≡ (p ++ xs) ++ ys = sym (append_assoc p xs ys) in
        let good1 : q1.bad ≡ false = bad-prefix (p ++ xs) ys (rw whole at good) in
        let split : unframe (p ++ (xs ++ ys)) ≡ prepend q1.msgs q2 =
          ap unframe whole ∙ unframe-append (p ++ xs) ys good1 in
        let can1 : K.Can ((done ++ q1.msgs) ++ q2.msgs) =
          rw (append_assoc done q1.msgs q2.msgs) (rw split at can) in
        rw split
          (elim (arrive-Ends done xs c b p v after (K.Can-prefix (done ++ q1.msgs) q2.msgs can1)
            (AllBytes-append_left xs ys h) (omega (arith, length-append xs ys))) [
              | waits c1 b1 e1 v1 after1 g ↦ Lasts-prepend done q1.msgs q2 _ _ (rw e1) (
                  session-Lasts xss (done ++ q1.msgs) c1 b1 q1.rest v1 after1 can1
                    (unframe-rest (p ++ xs) good1) (AllBytes-append_right xs ys h)
                    (omega (
                      arith,
                      length-append xs ys,
                      length-append p xs,
                      length-rest (p ++ xs)
                          (AllBytes-append p xs v.bytes (AllBytes-append_left xs ys h)),
                    ))
                    (sym (ap (λ (r : Parsed). r.bad) split) ∙ good))
              | drops c1 b1 e1 v1 after1 g ↦ cc
              | closes c1 ms later cut e1 gone closed ↦
                  ended c1 ms (later ++ q2.msgs)
                    (ap (λ ns. ns ++ q2.msgs) cut ∙ append_assoc ms later q2.msgs)
                    (rw e1 (session_gone xss c1 gone)) gone closed
            ])

    -- The same for a stream that is the frames of payloads.
    pub session_frames :
        (ms xss done : List (List ℕ)) (c : Con E) (b : E.Bev)
        → Holds bev c b []
        → K.After done c b
        → K.Can (done ++ ms)
        → AllPayloads ms
        → flatten xss ≡ frame_all ms
        → AllBytes (flatten xss)
        → length (flatten xss) < 2 ^ 31
        → Lasts K done (record { msgs = ms; rest = []; bad = false }) (session xss c)
    unfolding frame_all
    session_frames ms xss done c b v after can pay e bytes small =
        let parsed : unframe (flatten xss) ≡ record { msgs = ms; rest = []; bad = false } =
          ap unframe e ∙ unframe-frame_all ms pay in
        subst (λ q. Lasts K done q (session xss c)) parsed
          (session-Lasts xss done c b [] v after
            (subst (λ (q : Parsed). K.Can (done ++ q.msgs)) (sym parsed) can)
            (unframe-frame_all [] tt) bytes (omega arith) (ap (λ (r : Parsed). r.bad) parsed))
