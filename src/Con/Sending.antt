-- ===== src/Con/Sending.antt =====
-- What the send methods of ConCom put on the wire.
pub mod Sequence
pub mod Reliable
pub mod Typed
pub mod Raw
use libevent_cpp.Prelude.{
  ℕ, ◌%◌, ◌^◌, ◌≤◌, ◌<◌, ◌≡◌, refl, ap, sym, ◌∙◌, subst, ◌⊎◌, inl, inr, Bool, true, false, Option,
  none, some, List, [], ◌∷◌, ◌++◌, arith, ltb, length, take_all, append_assoc, append-nil,
  Bool-cases, ◌==◌, if◌then◌else◌,
}
use libevent_cpp.Prelude.Int.{is_zero}
use libevent_cpp.Prelude.Outcome.{Outcome, ok, fault, out_of_fuel, ◌>>=◌, >>=-returns}
use libevent_cpp.Bytes.{store_u32, auto_hton32}
use libevent_cpp.Env.{Env}
use libevent_cpp.Con.{Con, Handlers, deref, put, store, disconnect}
use libevent_cpp.Con.Frames.{frame, frame_all}
use libevent_cpp.Con.Framing.{IsPayload, AllPayloads}
use libevent_cpp.Con.Receive.{pack}
use libevent_cpp.Con.Send.{
  bufferevent_write, write_frame, limit_backlog, check_backlog, checked, send_pack,
  send_pack_string, send_data_pack,
}

-- What a failed write of libevent leaves of the frame of `m` in the output, which becomes `b'`: a
-- failure of the first, which is of the header, nothing; a failure of the second, which is of the
-- data, the header alone.
pub data NotWritten (E : Env) (b : E.Bev) (m : List ℕ) (b' : E.Bev) : Type 0 where
  no_header :
      (E.write b (store_u32 (auto_hton32 (length m)))).1 ≡ false
      → E.output b' ≡ E.output b
      → NotWritten E b m b'
  no_data :
      (E.write b (store_u32 (auto_hton32 (length m)))).1 ≡ true
      → (E.write (E.write b (store_u32 (auto_hton32 (length m)))).0 m).1 ≡ false
      → E.output b' ≡ E.output b ++ store_u32 (auto_hton32 (length m))
      → NotWritten E b m b'

module _ {E : Env} where
  -- The connection is up, and `bev`, with content `b`, is its live bufferevent.
  pub record IsUp (bev : ℕ) (c : Con E) (b : E.Bev) : Type 0 where
    pub attached : c.m_buf_e ≡ some bev
    pub alive : c.is_deleted ≡ false
    pub live : c.bevs bev ≡ some b
    pub is_open : is_zero c.m_fd ≡ false
    pub connected : c.m_is_connect ≡ true

  -- The bytes waiting to be sent are no more than the limit, if there is one.
  pub record HasRoom (c : Con E) (b : E.Bev) : Type 0 where
    pub room : (c.m_msbs ≡ 0) ⊎ ((n : ℕ) × (E.output_length b ≡ some n) × (n ≤ c.m_msbs))

  -- What a send of message `m` left behind in the output of `bev`: the whole frame if it
  -- returned true; and it returns false only if a write of libevent failed.
  pub data Sent (bev : ℕ) (c : Con E) (b : E.Bev) (m : List ℕ) (r : Outcome (Con E × Bool))
      : Type 0 where
    sent :
        (c' : Con E) (b' : E.Bev)
        → r ≡ ok (c', true)
        → IsUp bev c' b'
        → E.input b' ≡ E.input b
        → E.output b' ≡ E.output b ++ frame m
        → c'.user ≡ c.user
        → Sent bev c b m r
    refused :
        (c' : Con E) (b' : E.Bev)
        → r ≡ ok (c', false)
        → IsUp bev c' b'
        → E.input b' ≡ E.input b
        → NotWritten E b m b'
        → c'.user ≡ c.user
        → Sent bev c b m r

  -- A result of a call that is known to be up with content `b1`, and found to have content `b2`.
  pub live_same :
      (bev : ℕ) (c1 c2 : Con E) (b1 b2 : E.Bev)
      → IsUp bev c1 b1
      → c1 ≡ c2
      → c2.bevs bev ≡ some b2
      → b1 ≡ b2
  live_same bev c1 c2 b1 b2 v same live =
      let both : some b1 ≡ some b2 = sym v.live ∙ ap (λ (k : Con E). k.bevs bev) same ∙ live in
      cc both

  pub put_live : (bev : ℕ) (b : E.Bev) (c : Con E) → (put bev b c).bevs bev ≡ some b
  unfolding put
  put_live bev b c = ground arith

  pub put-IsUp : (bev : ℕ) (b b' : E.Bev) (c : Con E) → IsUp bev c b → IsUp bev (put bev b' c) b'
  unfolding put
  put-IsUp bev b b' c v = record {
    attached = v.attached;
    alive = v.alive;
    live = put_live bev b' c;
    is_open = v.is_open;
    connected = v.connected;
  }

  pub bufferevent_write_live :
      (bev : ℕ) (xs : List ℕ) (c : Con E) (b : E.Bev)
      → c.bevs bev ≡ some b
      → bufferevent_write bev xs c ≡ ok (put bev (E.write b xs).0 c, (E.write b xs).1)
  unfolding bufferevent_write
  bufferevent_write_live bev xs c b e = rw (deref, store, e) refl

  pub write_frame-Sent :
      (bev : ℕ) (m : List ℕ) (c : Con E) (b : E.Bev)
      → IsUp bev c b
      → Sent bev c b m (write_frame bev (length m) m c)
  unfolding write_frame frame put
  write_frame-Sent bev m c b v =
      let h = store_u32 (auto_hton32 (length m)) in
      let b1 = (E.write b h).0 in
      let c1 = put bev b1 c in
      let up1 = put-IsUp bev b b1 c v in
      let b2 = (E.write b1 m).0 in
      let first = bufferevent_write_live bev h c b v.live in
      let second = bufferevent_write_live bev m c1 b1 (put_live bev b1 c) in
      let in1 = E.input-write b h in
      let in2 = E.input-write b1 m ∙ in1 in
      elim (Bool-cases (E.write b h).1) [
        | inl e1 ↦ elim (Bool-cases (E.write b1 m).1) [
          | inl e2 ↦
              sent (put bev b2 c1) b2 (rw (first, e1, second, e2)) (put-IsUp bev b1 b2 c1 up1) in2
                (E.output-write b1 m e2
                  ∙ ap (λ xs. xs ++ m) (E.output-write b h e1)
                  ∙ append_assoc (E.output b) h m)
                refl
          | inr e2 ↦
              refused (put bev b2 c1) b2 (rw (first, e1, second, e2)) (put-IsUp bev b1 b2 c1 up1)
                in2 (no_data e1 e2 (E.output-write_fail b1 m e2 ∙ E.output-write b h e1)) refl
        ]
        | inr e1 ↦
            refused c1 b1 (rw (first, e1)) up1 in1 (no_header e1 (E.output-write_fail b h e1)) refl
      ]

  module _ (U : Handlers E) where
    check_backlog-room :
        (bev : ℕ) (c : Con E) (b : E.Bev)
        → IsUp bev c b
        → HasRoom c b
        → check_backlog U bev c ≡ ok (c, true)
    unfolding check_backlog
    check_backlog-room bev c b v h = elim h.room [
      | inl e ↦ rw e
      | inr (n, e, l) ↦ ground (arith, v.live)
    ]

    limit_backlog-true :
        (o : Option ℕ) (c c' : Con E) → limit_backlog U o c ≡ ok (c', true) → c' ≡ c
    unfolding limit_backlog
    limit_backlog-true none c c' h = cc
    limit_backlog-true (some n) c c' h = elim (Bool-cases (ltb c.m_msbs n)) [
      | inl e ↦
          let (d, f, g) = >>=-returns (disconnect U c) (λ c''. ok (c'', false)) (rw e at h) in cc g
      | inr e ↦
          let h' : ◌≡◌ {A = Outcome (Con E × Bool)} (ok (c, true)) (ok (c', true)) = rw e at h in
          cc h'
    ]

    pub check_backlog-true :
        (bev : ℕ) (c c' : Con E) → check_backlog U bev c ≡ ok (c', true) → c' ≡ c
    unfolding check_backlog
    check_backlog-true bev c c' h = elim (Bool-cases (c.m_msbs == 0)) [
      | inl e ↦
          let h' : ◌≡◌ {A = Outcome (Con E × Bool)} (ok (c, true)) (ok (c', true)) = rw e at h in
          cc h'
      | inr e ↦
          let (b, f, g) =
            >>=-returns (deref bev c) (λ b. limit_backlog U (E.output_length b) c) (rw e at h) in
          limit_backlog-true (E.output_length b) c c' g
    ]

    check_backlog-full :
        (bev n : ℕ) (c : Con E) (b : E.Bev)
        → c.bevs bev ≡ some b
        → 0 < c.m_msbs
        → E.output_length b ≡ some n
        → c.m_msbs < n
        → check_backlog U bev c ≡ (disconnect U c >>= λ c'. ok (c', false))
    unfolding check_backlog
    check_backlog-full bev n c b e p o l = ground arith

    -- Past the limit, whatever was to be written, the connection is dropped.
    pub checked_full :
        (bev n : ℕ) (write : Con E → Outcome (Con E × Bool)) (c : Con E) (b : E.Bev)
        → c.bevs bev ≡ some b
        → 0 < c.m_msbs
        → E.output_length b ≡ some n
        → c.m_msbs < n
        → checked U bev write c ≡ (disconnect U c >>= λ c'. ok (c', false))
    unfolding checked
    checked_full bev n write c b e p o l =
        rw (check_backlog-full bev n c b e p o l) (stop (disconnect U c))
      where
        stop :
            (m : Outcome (Con E))
            → ((m >>= λ c'. ok (c', false)) >>= λ (r : Con E × Bool).
                if r.1 then write r.0 else ok (r.0, false))
              ≡ (m >>= λ c'. ok (c', false))
        stop (ok a) = refl
        stop (fault f) = refl
        stop out_of_fuel = refl

    -- The guards of SendPack let a payload through on a connection that is up.
    pub send_pack_string-checked :
        (bev : ℕ) (m : List ℕ) (c : Con E) (b : E.Bev)
        → IsUp bev c b
        → IsPayload m
        → send_pack_string U m c ≡ checked U bev (write_frame bev (length m) m) c
    unfolding send_pack_string send_pack
    send_pack_string-checked bev m c b v pay =
        let whole : length m % 2 ^ 32 ≡ length m = omega arith in
        rw whole (ground (arith, take_all (length m) m, v.attached, v.is_open, v.connected))

    pub checked-room :
        (bev : ℕ) (write : Con E → Outcome (Con E × Bool)) (c : Con E) (b : E.Bev)
        → IsUp bev c b
        → HasRoom c b
        → checked U bev write c ≡ write c
    unfolding checked
    checked-room bev write c b v h = rw (check_backlog-room bev c b v h)

    -- SendPack of a payload, on a connection that is up and within its limit, leaves the connection up
    -- and what was received as it is. Where libevent takes both writes it returns true, with the whole
    -- frame in the output. It returns false only where a write fails: with nothing put there if it
    -- is the first, of the header, and with the header alone if it is the second.
    pub send_pack_string-Sent :
        (bev : ℕ) (m : List ℕ) (c : Con E) (b : E.Bev)
        → IsUp bev c b
        → HasRoom c b
        → IsPayload m
        → Sent bev c b m (send_pack_string U m c)
    send_pack_string-Sent bev m c b v h pay =
        rw (send_pack_string-checked bev m c b v pay ∙ checked-room bev _ c b v h)
          (write_frame-Sent bev m c b v)

    -- SendData of a pack with a payload, and SendPack of it as a string, do what SendPack does with
    -- the payload and its length, in every state of the connection.
    pub send_data_pack-eq-send_pack :
        (m : List ℕ) (c : Con E)
        → IsPayload m
        → (send_data_pack U (pack m) c ≡ send_pack U (some m) (length m) c)
          × (send_pack_string U m c ≡ send_pack U (some m) (length m) c)
    unfolding send_data_pack send_pack send_pack_string
    send_data_pack-eq-send_pack m c pay =
        let whole : length m % 2 ^ 32 ≡ length m = omega arith in
        (ground arith, ap (λ n. send_pack U (some m) n c) whole)
