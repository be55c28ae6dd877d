-- ===== src/Con/Alone/Calls.antt =====
-- src/connector.cc, where the object has the only bufferevent that there is: SendData, DisConnect and
-- the event callback leave no other.
use libevent_cpp.Prelude.{
  ℕ, ◌≡◌, refl, ◌⊎◌, inl, inr, Bool, true, false, List, ltb, ◌==◌, if◌then◌else◌, take, Bool-cases,
  Option-cases,
}
use libevent_cpp.Prelude.Int.{is_zero}
use libevent_cpp.Prelude.Outcome.{Outcome, ok, Safe, safe, Safe->>=, ◌>>=◌}
use libevent_cpp.Bytes.{auto_hton32, store_u32}
use libevent_cpp.Env.{Env}
use libevent_cpp.Con.{
  Con, Handlers, MsgPack, max_msg_data_len, deref, put, store, free, disconnect,
  conn_event_callback,
}
use libevent_cpp.Con.Send.{
  bufferevent_write, write_frame, limit_backlog, check_backlog, checked, send_data_pack,
}
use libevent_cpp.Con.Valid.{Anything, idle, attached, At, still_there_lem}
use libevent_cpp.Con.Methods.{is_connected_event}
use libevent_cpp.Con.Alone.{alone, IsTidy, IsTidyAt, IsTidyAt-IsTidy, put-IsTidyAt, free_empties}

Safe-if :
    {A : Type 0} {P : A → Type 0} (t : Bool) (x y : Outcome A)
    → Safe P x
    → Safe P y
    → Safe P (if t then x else y)
Safe-if true x y a b = a
Safe-if false x y a b = b

module _ {E : Env} where
  -- A method's result that is tidy.
  abbrev pub Tidily : Con E × Bool → Type 0
  Tidily r = IsTidy r.0

  abbrev TidilyAt : ℕ → Con E × Bool → Type 0
  TidilyAt bev r = IsTidyAt bev r.0

  bufferevent_write-Tidy :
      (bev : ℕ) (xs : List ℕ) (c : Con E)
      → IsTidyAt bev c
      → Safe (TidilyAt bev) (bufferevent_write bev xs c)
  unfolding bufferevent_write
  bufferevent_write-Tidy bev xs c v =
      let b = v.at.0 in
      safe (put bev (E.write b xs).0 c, (E.write b xs).1) (rw (deref, store, v.at.2) refl)
        (put-IsTidyAt bev (E.write b xs).0 c v)

  write_frame-Tidy :
      (bev len : ℕ) (body : List ℕ) (c : Con E)
      → IsTidyAt bev c
      → Safe (TidilyAt bev) (write_frame bev len body c)
  unfolding write_frame
  write_frame-Tidy bev len body c v =
      Safe->>= (bufferevent_write bev (store_u32 (auto_hton32 len)) c) _
        (bufferevent_write-Tidy bev _ c v)
        (λ r w.
          Safe-if r.1 (bufferevent_write bev body r.0) (ok (r.0, false))
            (bufferevent_write-Tidy bev body r.0 w) (safe (r.0, false) refl w))

  connected :
      (c : Con E) (bev : ℕ)
      → At Anything bev c
      → IsTidy c
      → IsTidy (record c { m_is_connect = true })
  connected c bev at v = elim v.only [
    | alone f ↦ record { valid = attached bev at.0 at.1 at.2 at.3 at.4 tt; only = alone f }
  ]

  alive_of : (c : Con E) → IsTidy c → c.is_deleted ≡ false
  alive_of c v = elim v.valid [
    | idle a f k l alive q ↦ alive
    | attached bev b a e f alive q ↦ alive
  ]

  module _ (U : Handlers E) (quiet : (c : Con E) → U.on_disconnected c ≡ ok c) where
    pub disconnect-Tidy : (c : Con E) → IsTidy c → Safe IsTidy (disconnect U c)
    unfolding disconnect
    disconnect-Tidy c v =
        Safe-if (is_zero c.m_fd) (ok c) (free c >>= λ d. U.on_disconnected d) (safe c refl v)
          (Safe->>= (free c) U.on_disconnected (free_empties c v) (λ d w. safe d (quiet d) w.0))

    -- The test of the backlog lets the send go on, with nothing changed, or it does not.
    check_backlog-Tidy :
        (bev : ℕ) (c : Con E)
        → IsTidyAt bev c
        → Safe (λ r. (r ≡ (c, true)) ⊎ ((r.1 ≡ false) × IsTidy r.0)) (check_backlog U bev c)
    unfolding check_backlog limit_backlog
    check_backlog-Tidy bev c v =
        let b = v.at.0 in
        let t = IsTidyAt-IsTidy bev c v in
        elim (Bool-cases (c.m_msbs == 0)) [
          | inl z ↦ rw z (safe (c, true) refl (inl refl))
          | inr z ↦ elim (Option-cases (E.output_length b)) [
            | inl n ↦ rw (z, v.at.2, deref, n) (safe (c, false) refl (inr (refl, t)))
            | inr (n, h) ↦
                rw (z, v.at.2, deref, h)
                  (Safe-if (ltb c.m_msbs n) (disconnect U c >>= λ d. ok (d, false)) (ok (c, true))
                    (Safe->>= (disconnect U c) _ (disconnect-Tidy c t)
                      (λ d w. safe (d, false) refl (inr (refl, w))))
                    (safe (c, true) refl (inl refl)))
          ]
        ]

    checked-Tidy :
        (bev : ℕ) (write : Con E → Outcome (Con E × Bool)) (c : Con E)
        → IsTidyAt bev c
        → Safe (TidilyAt bev) (write c)
        → Safe Tidily (checked U bev write c)
    unfolding checked
    checked-Tidy bev write c v (safe s e w) =
        Safe->>= (check_backlog U bev c) _ (check_backlog-Tidy bev c v) go
      where
        go :
            (r : Con E × Bool)
            → (r ≡ (c, true)) ⊎ ((r.1 ≡ false) × IsTidy r.0)
            → Safe Tidily (if r.1 then write r.0 else ok (r.0, false))
        go r (inl p) = rw p (safe s e (IsTidyAt-IsTidy bev s.0 w))
        go r (inr (f, x)) = rw f (safe (r.0, false) refl x)

    pub send_data_pack-Tidy :
        (msg : MsgPack) (c : Con E) → IsTidy c → Safe Tidily (send_data_pack U msg c)
    unfolding send_data_pack
    send_data_pack-Tidy msg c v =
        let no : Safe Tidily (ok (c, false)) = safe (c, false) refl v in
        Safe-if c.m_is_connect _ _
          (Safe-if (ltb max_msg_data_len msg.len) _ _ no (
            Safe-if (is_zero c.m_fd) _ _ no (elim v.valid [
              | idle a f k l alive q ↦ rw a no
              | attached bev b a e f alive q ↦
                  let at : IsTidyAt bev c = record { at = (b, a, e, f, alive, q); only = v.only } in
                  rw a (
                    checked-Tidy bev (write_frame bev msg.len (take msg.len msg.data_bytes)) c at
                      (write_frame-Tidy bev msg.len (take msg.len msg.data_bytes) c at))
            ])))
          no

    -- The event callback, where OnConnected keeps the object tidy and OnError does nothing.
    pub conn_event_callback-Tidy :
        (events : ℕ) (c : Con E)
        → ((d : Con E) → U.on_error events d ≡ ok d)
        → ((d : Con E) → IsTidy d → Safe IsTidy (U.on_connected d))
        → IsTidy c
        → (is_connected_event events ≡ false) ⊎ ((bev : ℕ) × At Anything bev c)
        → Safe IsTidy (conn_event_callback U events c)
    unfolding conn_event_callback
    conn_event_callback-Tidy events c err up v h = elim (Bool-cases (is_connected_event events)) [
      | inl t ↦ rw t (elim h [
        | inl f ↦ cc
        | inr (bev, at) ↦ up (record c { m_is_connect = true }) (connected c bev at v)
      ])
      | inr t ↦ rw (t, err c, still_there_lem c (alive_of c v)) (disconnect-Tidy c v)
    ]
