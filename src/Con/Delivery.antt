-- ===== src/Con/Delivery.antt =====
-- The whole of ConCom::conn_read_callback_no_cp against the reference view of the stream.
use libevent_cpp.Prelude.{
  ℕ, zero, suc, ◌+◌, ◌^◌, ◌≤◌, ◌<◌, ◌≡◌, refl, ap, sym, ◌∙◌, subst, inr, true, false, some, List,
  [], ◌∷◌, ◌++◌, arith, length, take, drop, length-drop, none, append-nil, append_assoc,
}
use libevent_cpp.Prelude.Int.{pos}
use libevent_cpp.Prelude.Outcome.{Outcome, ok, fault, out_of_fuel, ◌>>=◌}
use libevent_cpp.Bytes.{wire_u32, AllBytes}
use libevent_cpp.Env.{Env}
use libevent_cpp.Con.{Con, Handlers, disconnect, deref}
use libevent_cpp.Con.Frames.{
  bad_len, Parsed, prepend, unframe, no_header, bad_header, partial_body, whole, start,
  unframe_no_header, unframe_bad_header, unframe_partial_body, unframe_whole,
}
use libevent_cpp.Con.Read.{
  returns, continues, read_round, read_loop, deliver, conn_read_callback_no_cp,
}
use libevent_cpp.Con.Receive.{
  Holds, Headed, Holds-length, read_head-Headed, read_round-head, round_waits, read_body-bad,
  read_body-partial, read_body-whole,
}
use libevent_cpp.Con.Serving.{Contract, goes_on, is_done, deliver-Delivered}

module _ {E : Env} where
  -- How the callback ends on a stream whose parse is `q`, after the messages `done`. It has
  -- delivered every whole message, and waits for more bytes, or, at a length that is not allowed,
  -- disconnects; or OnRecv dropped the connection at some message, and the callback has ended there.
  pub data Ends (U : Handlers E) (bev : ℕ) (K : Contract U bev) (done : List (List ℕ)) (q : Parsed)
      (r : Outcome (Con E)) : Type 0 where
    waits :
        (c : Con E) (b : E.Bev)
        → r ≡ ok c
        → Holds bev c b q.rest
        → K.After (done ++ q.msgs) c b
        → q.bad ≡ false
        → Ends U bev K done q r
    drops :
        (c : Con E) (b : E.Bev)
        → r ≡ disconnect U c
        → Headed bev c b q.rest
        → K.After (done ++ q.msgs) c b
        → q.bad ≡ true
        → Ends U bev K done q r
    closes :
        (c : Con E) (ms later : List (List ℕ))
        → q.msgs ≡ ms ++ later
        → r ≡ ok c
        → c.bevs bev ≡ none
        → K.Closed (done ++ ms) c
        → Ends U bev K done q r

  Headed-Holds :
      (bev : ℕ) (c : Con E) (b : E.Bev) (p : List ℕ)
      → Headed bev c b p
      → AllBytes p
      → length p < 2 ^ 31
      → 4 ≤ length p
      → bad_len (wire_u32 p) ≡ false
      → Holds bev c b p
  Headed-Holds bev c b p v bytes small h g = record {
    live = v.live;
    is_open = v.is_open;
    framed = v.framed;
    alive = v.alive;
    bytes = bytes;
    small = small;
    image = inr (v.len, h, rw v.len g, rw v.len v.stored);
  }

  module _ (U : Handlers E) (bev fuel : ℕ) (c c' : Con E) where
    pub loop_returns : read_round U bev c ≡ ok (returns c') → read_loop U (suc fuel) bev c ≡ ok c'
    unfolding read_loop
    loop_returns e = rw e

    loop_continues :
        read_round U bev c ≡ ok (continues c')
        → read_loop U (suc fuel) bev c ≡ read_loop U fuel bev c'
    unfolding read_loop
    loop_continues e = rw e

    pub loop_drops :
        read_round U bev c ≡ (disconnect U c' >>= λ c''. ok (returns c''))
        → read_loop U (suc fuel) bev c ≡ disconnect U c'
    unfolding read_loop
    loop_drops e = rw e (>>=-return (disconnect U c'))
      where
        >>=-return :
            (m : Outcome (Con E))
            → ((m >>= λ c''. ok (returns c'')) >>= λ r. elim r [
              | returns c'' ↦ ok c''
              | continues c'' ↦ read_loop U fuel bev c''
            ])
              ≡ m
        >>=-return (ok a) = refl
        >>=-return (fault f) = refl
        >>=-return out_of_fuel = refl

  -- The callback goes on with what the rest of the stream holds.
  Ends-prepend :
      (U : Handlers E) (bev : ℕ) (K : Contract U bev) (done : List (List ℕ)) (m : List ℕ)
      (q : Parsed) (r r' : Outcome (Con E))
      → r ≡ r'
      → Ends U bev K (done ++ m ∷ []) q r'
      → Ends U bev K done (prepend (m ∷ []) q) r
  Ends-prepend U bev K done m q r r' er (waits c b e v f g) =
      waits c b (er ∙ e) v (rw (append_assoc done (m ∷ []) q.msgs) at f) g
  Ends-prepend U bev K done m q r r' er (drops c b e v f g) =
      drops c b (er ∙ e) v (rw (append_assoc done (m ∷ []) q.msgs) at f) g
  Ends-prepend U bev K done m q r r' er (closes c ms later split e l f) =
      closes c (m ∷ ms) later (ap (◌∷◌ m) split) (er ∙ e) l
        (rw (append_assoc done (m ∷ []) ms) at f)

  -- OnRecv dropped the connection at the first message of the rest.
  Ends-first :
      (U : Handlers E) (bev : ℕ) (K : Contract U bev) (done : List (List ℕ)) (m : List ℕ)
      (q : Parsed) (r : Outcome (Con E)) (c : Con E)
      → r ≡ ok c
      → c.bevs bev ≡ none
      → K.Closed (done ++ m ∷ []) c
      → Ends U bev K done (prepend (m ∷ []) q) r
  Ends-first U bev K done m q r c e gone closed = closes c (m ∷ []) q.msgs refl e gone closed

  module _ (U : Handlers E) (bev : ℕ) (K : Contract U bev) where
    -- The messages of a stream that starts with a whole one.
    Can-first :
        (done : List (List ℕ)) (p : List ℕ)
        → bad_len (wire_u32 p) ≡ false
        → 4 + wire_u32 p ≤ length p
        → K.Can (done ++ (unframe p).msgs)
        → K.Can (
            (done ++ take (wire_u32 p) (drop 4 p) ∷ []) ++ (unframe (drop (4 + wire_u32 p) p)).msgs)
    Can-first done p f g h =
        let m = take (wire_u32 p) (drop 4 p) in
        let h' : K.Can (done ++ (m ∷ [] ++ (unframe (drop (4 + wire_u32 p) p)).msgs)) =
          rw (unframe_whole p f g) at h in
        rw (append_assoc done (m ∷ []) (unframe (drop (4 + wire_u32 p) p)).msgs) h'

    read_loop-Ends :
        (fuel : ℕ) (done : List (List ℕ)) (c : Con E) (b : E.Bev) (p : List ℕ)
        → Holds bev c b p
        → K.After done c b
        → K.Can (done ++ (unframe p).msgs)
        → length p < fuel
        → Ends U bev K done (unframe p) (read_loop U fuel bev c)
    read_loop-Ends zero done c b p v after can h = absurd (omega arith)
    read_loop-Ends (suc fuel) done c b p v after can h = elim (start p) [
      | no_header e ↦ rw (unframe_no_header p e) (
          waits c b (loop_returns U bev fuel c c (round_waits U bev c b p v e)) v
            (rw (append-nil done) after) refl)
      | bad_header e f ↦
          let (c1, b1, head, v1, after1) =
            read_head-Headed bev (K.After done) c b p (K.After-IsStable done) after v e in
          rw (unframe_bad_header p e f) (
            drops c1 b1
              (loop_drops U bev fuel c c1 (
                read_round-head U bev c b p v e
                ∙ rw head (read_body-bad U bev c1 (pos (length p)) (rw v1.len f))))
              v1 (rw (append-nil done) after1) refl)
      | partial_body e f g ↦
          let (c1, b1, head, v1, after1) =
            read_head-Headed bev (K.After done) c b p (K.After-IsStable done) after v e in
          rw (unframe_partial_body p e f g) (
            waits c1 b1
              (loop_returns U bev fuel c c1 (
                read_round-head U bev c b p v e
                ∙ rw head (read_body-partial U bev c1 (wire_u32 p) (length p) v1.len f g)))
              (Headed-Holds bev c1 b1 p v1 v.bytes v.small e f) (rw (append-nil done) after1) refl)
      | whole f g ↦
          let m = take (wire_u32 p) (drop 4 p) in
          let rest = drop (4 + wire_u32 p) p in
          let (c1, b1, head, v1, after1) =
            read_head-Headed bev (K.After done) c b p (K.After-IsStable done) after v
              (omega arith) in
          let can1 = Can-first done p f g can in
          let step : read_round U bev c ≡ deliver U bev (4 + wire_u32 p) c1 =
            read_round-head U bev c b p v (omega arith)
            ∙ rw head (read_body-whole U bev c1 (wire_u32 p) (length p) v1.len f g) in
          rw (unframe_whole p f g)
            (elim (deliver-Delivered U bev K done c1 b1 p v1 after1 v.bytes v.small f g
              (K.Can-prefix (done ++ m ∷ []) (unframe rest).msgs can1)) [
                | goes_on c2 b2 body v2 after2 ↦
                    Ends-prepend U bev K done m (unframe rest) _ _
                      (loop_continues U bev fuel c c2 (step ∙ body))
                      (read_loop-Ends fuel (done ++ m ∷ []) c2 b2 rest v2 after2 can1
                        (omega (arith, length-drop (4 + wire_u32 p) p)))
                | is_done c2 body gone closed ↦
                    Ends-first U bev K done m (unframe rest) _ c2
                      (loop_returns U bev fuel c c2 (step ∙ body)) gone closed
              ])
    ]

    -- On an open connection with less than 2^31 bytes that wait, and under a contract of OnRecv by
    -- which it can take the messages that are there, ConCom::conn_read_callback_no_cp delivers the
    -- whole messages that are there, and then waits, or disconnects at a length that is not
    -- allowed; or it ends at the message at which OnRecv dropped the connection. It never runs out
    -- of fuel.
    pub conn_read_callback-Ends :
        (done : List (List ℕ)) (c : Con E) (b : E.Bev) (p : List ℕ)
        → Holds bev c b p
        → K.After done c b
        → K.Can (done ++ (unframe p).msgs)
        → Ends U bev K done (unframe p) (conn_read_callback_no_cp U bev c)
    unfolding conn_read_callback_no_cp
    conn_read_callback-Ends done c b p v after can =
        subst (Ends U bev K done (unframe p)) (sym (run v.live)) (
          read_loop-Ends (suc (E.input_length b)) done c b p v after can
            (omega (arith, Holds-length v)))
      where
        run :
            c.bevs bev ≡ some b
            → conn_read_callback_no_cp U bev c ≡ read_loop U (suc (E.input_length b)) bev c
        run e = rw (e, deref)
