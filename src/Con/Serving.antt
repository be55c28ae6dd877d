-- ===== src/Con/Serving.antt =====
-- What an OnRecv may do, as a contract, and what ConCom::conn_read_callback_no_cp does with one whole
-- message under it.
use libevent_cpp.Prelude.{
  ℕ, ◌+◌, ◌^◌, ◌≤◌, ◌<◌, ◌≡◌, refl, ap, ◌∙◌, inl, true, false, none, some, List, [], ◌∷◌, ◌++◌,
  arith, length, take, drop, length-drop, length-take, drop-drop,
}
use libevent_cpp.Prelude.Int.{is_zero}
use libevent_cpp.Prelude.Outcome.{Outcome, ok}
use libevent_cpp.Bytes.{wire_u32, AllBytes, AllBytes-drop, drop-store_u32_add}
use libevent_cpp.Env.{Env}
use libevent_cpp.Con.{Con, Handlers, update}
use libevent_cpp.Con.Frames.{bad_len}
use libevent_cpp.Con.Framing.{IsPayload}
use libevent_cpp.Con.Read.{returns, continues, deliver, after_recv}
use libevent_cpp.Con.Receive.{Holds, Headed, IsStable, pack, deliver_recv}

payload :
    (n : ℕ) (p : List ℕ) → bad_len n ≡ false → 4 + n ≤ length p → IsPayload (take n (drop 4 p))
payload n p good whole = record {
  nonempty = ground (arith, length-take n (drop 4 p), length-drop 4 p);
  fits = ground (arith, length-take n (drop 4 p), length-drop 4 p);
}

module _ {E : Env} where
  -- The object reads its input in the same way, and is there if it was.
  abbrev pub IsSame : Con E → Con E → Type 0
  IsSame c' c = (c'.m_is_raw_read_cb ≡ c.m_is_raw_read_cb) × (c'.is_deleted ≡ c.is_deleted)

  -- How a call of OnRecv ends. It leaves the connection open and the received bytes alone, so that
  -- `P` holds; or it drops the connection, so that `Q` holds. `c` and `b` are what it was called
  -- with. In both cases it does not delete the object.
  pub data Answer (bev : ℕ) (c : Con E) (b : E.Bev) (P : Con E → E.Bev → Type 0)
      (Q : Con E → Type 0) (r : Outcome (Con E)) : Type 0 where
    keeps :
        (c' : Con E) (b' : E.Bev)
        → r ≡ ok c'
        → c'.bevs bev ≡ some b'
        → E.input b' ≡ E.input b
        → is_zero c'.m_fd ≡ false
        → IsSame c' c
        → P c' b'
        → Answer bev c b P Q r
    leaves :
        (c' : Con E)
        → r ≡ ok c'
        → c'.bevs bev ≡ none
        → is_zero c'.m_fd ≡ true
        → c'.is_deleted ≡ c.is_deleted
        → Q c'
        → Answer bev c b P Q r

  -- What a class promises of its OnRecv. `After ms` is what holds of an open connection that has
  -- taken the messages `ms`, and `Closed ms` of one that OnRecv dropped with the last of them; it
  -- need keep this only for the messages that it can take.
  pub record Contract (U : Handlers E) (bev : ℕ) : Type 1 where
    pub After : List (List ℕ) → Con E → E.Bev → Type 0
    pub Closed : List (List ℕ) → Con E → Type 0
    pub Can : List (List ℕ) → Type 0
    pub Can-prefix : (ms ns : List (List ℕ)) → Can (ms ++ ns) → Can ms
    pub After-IsStable : (ms : List (List ℕ)) → IsStable bev (After ms)
    pub on_recv_lem :
        (ms : List (List ℕ)) (m : List ℕ) (c : Con E) (b : E.Bev)
        → After ms c b
        → c.bevs bev ≡ some b
        → is_zero c.m_fd ≡ false
        → IsPayload m
        → Can (ms ++ m ∷ [])
        → Answer bev c b (After (ms ++ m ∷ [])) (Closed (ms ++ m ∷ [])) (U.on_recv (pack m) c)

  module _ (U : Handlers E) (bev : ℕ) where
    after_recv_open :
        (n : ℕ) (c : Con E) (b : E.Bev)
        → c.bevs bev ≡ some b
        → is_zero c.m_fd ≡ false
        → c.is_deleted ≡ false
        → after_recv U bev n c
          ≡ ok (
              continues
                (record c { bevs = update c.bevs bev (some (E.drain b n)); m_rev_pack_len = 0 }))
    unfolding after_recv
    after_recv_open n c b l o alive = ground (arith, l, o, alive)

    pub after_recv_dropped :
        (n : ℕ) (c : Con E)
        → is_zero c.m_fd ≡ true
        → c.is_deleted ≡ false
        → after_recv U bev n c ≡ ok (returns c)
    unfolding after_recv
    after_recv_dropped n c z alive = ground (arith, z, alive)

  -- One whole message was taken: the callback goes on with the rest of the stream, or, if OnRecv
  -- dropped the connection, is done.
  pub data Delivered (U : Handlers E) (bev : ℕ) (K : Contract U bev) (ms : List (List ℕ)) (n : ℕ)
      (p : List ℕ) (c : Con E) : Type 0 where
    goes_on :
        (c' : Con E) (b' : E.Bev)
        → deliver U bev (4 + n) c ≡ ok (continues c')
        → Holds bev c' b' (drop (4 + n) p)
        → K.After (ms ++ take n (drop 4 p) ∷ []) c' b'
        → Delivered U bev K ms n p c
    is_done :
        (c' : Con E)
        → deliver U bev (4 + n) c ≡ ok (returns c')
        → c'.bevs bev ≡ none
        → K.Closed (ms ++ take n (drop 4 p) ∷ []) c'
        → Delivered U bev K ms n p c

  pub deliver-Delivered :
      (U : Handlers E) (bev : ℕ) (K : Contract U bev) (ms : List (List ℕ)) (c : Con E) (b : E.Bev)
      (p : List ℕ)
      → Headed bev c b p
      → K.After ms c b
      → AllBytes p
      → length p < 2 ^ 31
      → bad_len (wire_u32 p) ≡ false
      → 4 + wire_u32 p ≤ length p
      → K.Can (ms ++ take (wire_u32 p) (drop 4 p) ∷ [])
      → Delivered U bev K ms (wire_u32 p) p c
  deliver-Delivered U bev K ms c b p v after bytes small good whole can =
      let n = wire_u32 p in
      let m = take n (drop 4 p) in
      let called = deliver_recv U bev c b p v bytes whole in
      elim (K.on_recv_lem ms m c b after v.live v.is_open (payload n p good whole) can) [
        | keeps c1 b1 run live same is_open mode after1 ↦
            let b2 = E.drain b1 (4 + n) in
            goes_on (record c1 { bevs = update c1.bevs bev (some b2); m_rev_pack_len = 0 }) b2
              (called
                ∙ (rw run (after_recv_open U bev (4 + n) c1 b1 live is_open (mode.1 ∙ v.alive))))
              (record {
                live = ground arith;
                is_open = is_open;
                framed = mode.0 ∙ v.framed;
                alive = mode.1 ∙ v.alive;
                bytes = AllBytes-drop (4 + n) p bytes;
                small = omega (arith, length-drop (4 + n) p);
                image = inl (
                  refl,
                  E.input-drain b1 (4 + n)
                      ∙ ap (drop (4 + n)) (same ∙ v.stored)
                      ∙ drop-store_u32_add n n (drop 4 p)
                      ∙ drop-drop n 4 p,
                );
              })
              (K.After-IsStable (ms ++ m ∷ []) c1 b1 0 b2 c1.dying after1
                (E.output-drain b1 (4 + n)))
        | leaves c1 run gone shut same closed ↦
            is_done c1
              (called ∙ (rw run (after_recv_dropped U bev (4 + n) c1 shut (same ∙ v.alive)))) gone
              closed
      ]
