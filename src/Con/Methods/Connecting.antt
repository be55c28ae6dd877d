-- ===== src/Con/Methods/Connecting.antt =====
-- The events and the connecting of src/connector.cc, and the phases of the object.
use libevent_cpp.Prelude.{
  ℕ, ◌≡◌, refl, ◌∙◌, Bool, true, false, not, Option, none, some, List, arith, ◌==◌, Bool-cases, inl,
  inr, ◌⊎◌,
}
use libevent_cpp.Prelude.Int.{ℤ, is_zero}
use libevent_cpp.Prelude.Outcome.{ok, ◌>>=◌, Safe, safe, Safe->>=}
use libevent_cpp.Env.{Env}
use libevent_cpp.Con.{
  Con, Handlers, SockAddr, put, set_addr, set_addr_ip, conn_event_callback, still_there,
  set_max_send_buf_size,
}
use libevent_cpp.Con.Send.{setwatermark}
use libevent_cpp.Con.Client.{
  Attempt, early, take_socket, connect_by_addr, connect_init_ip, connect_init_addr, try_reconnect,
}
use libevent_cpp.Con.Valid.{
  Anything, IsValid, idle, attached, Respects, IsValidResult, still_there_lem, At,
  disconnect-IsValid,
}
use libevent_cpp.Con.Methods.{is_connected_event, IsAttempt, Answers}

module _ {E : Env} (P : E.User → Type 0) where
  pub user_kept : (c : Con E) → IsValid P c → P c.user
  user_kept c (idle a f k l alive q) = q
  user_kept c (attached bev b a e f alive q) = q

  there : (c : Con E) → IsValid P c → c.is_deleted ≡ false
  there c (idle a f k l alive q) = alive
  there c (attached bev b a e f alive q) = alive

  pub put-IsValid : (bev : ℕ) (b : E.Bev) (c : Con E) → IsValid P c → IsValid P (put bev b c)
  unfolding put
  put-IsValid bev b c (idle a f k l alive q) = idle a f k l alive q
  put-IsValid bev b c (attached old d a e f alive q) = elim (Bool-cases (bev == old)) [
    | inl t ↦ attached old b a (rw t) f alive q
    | inr t ↦ attached old d a (rw t e) f alive q
  ]

  module _ (U : Handlers E) (u : Respects P U) where
    pub event-IsValid :
        (events : ℕ) (c : Con E)
        → IsValid P c
        → (is_connected_event events ≡ false) ⊎ ((bev : ℕ) × At Anything bev c)
        → Safe (IsValid P) (conn_event_callback U events c)
    unfolding conn_event_callback
    event-IsValid events c v h = elim (Bool-cases (is_connected_event events)) [
      | inl t ↦ rw t (elim h [
        | inl f ↦ cc
        | inr (bev, at) ↦
            u.connected_lem (record c { m_is_connect = true })
              (attached bev at.0 at.1 at.2 at.3 at.4 (user_kept c v))
      ])
      | inr t ↦ rw t (
          Safe->>= (U.on_error events c) _ (u.error_lem events c v)
            (λ d w. rw (still_there_lem d (there d w)) (disconnect-IsValid P U u d w)))
    ]

    early-IsValid :
        (o : Option ℕ) (c : Con E)
        → IsValid P c
        → (o ≡ none) ⊎ ((e : ℕ) × (o ≡ some e) × (is_connected_event e ≡ false))
        → Safe (IsValid P) (early U o c)
    unfolding early
    early-IsValid none c v h = safe c refl v
    early-IsValid (some e) c v (inl n) = cc
    early-IsValid (some e) c v (inr (e', same, f)) =
        let eq : e' ≡ e = cc same in event-IsValid e c v (inl (rw (← eq) f))

    take_socket-IsValid :
        (connects : Bool) (bev : ℕ) (fd : ℤ) (c : Con E) (b : E.Bev)
        → c.m_buf_e ≡ none
        → c.bevs bev ≡ some b
        → is_zero fd ≡ false
        → IsValid P c
        → Safe (IsValidResult P) (take_socket U connects bev fd c)
    unfolding take_socket still_there
    take_socket-IsValid false bev fd c b n e f v =
        let alive = there c v in safe (c, false) (rw alive refl) v
    take_socket-IsValid true bev fd c b n e f v =
        let alive = there c v in
        safe (record c { m_buf_e = some bev; m_fd = fd; m_addr = c.m_addr }, true) (rw (alive, n))
          (attached bev b refl e f alive (user_kept c v))

    idle-m_buf_e : (c : Con E) → IsValid P c → is_zero c.m_fd ≡ true → c.m_buf_e ≡ none
    idle-m_buf_e c (idle a f k l alive q) z = a
    idle-m_buf_e c (attached bev b a e f alive q) z = cc

    put_live : (bev : ℕ) (b : E.Bev) (c : Con E) → (put bev b c).bevs bev ≡ some b
    unfolding put
    put_live bev b c = ground arith

    put-m_buf_e : (bev : ℕ) (b : E.Bev) (c : Con E) → (put bev b c).m_buf_e ≡ c.m_buf_e
    unfolding put
    put-m_buf_e bev b c = refl

    early-none : (d : Con E) → early U none d ≡ ok d
    unfolding early
    early-none d = refl

    take_failed :
        (bev : ℕ) (fd : ℤ) (d : Con E)
        → IsValid P d
        → Safe (IsValidResult P) (take_socket U false bev fd d)
    unfolding take_socket still_there
    take_failed bev fd d w = let alive = there d w in safe (d, false) (rw alive refl) w

    -- A socket that the object takes, or that it could not connect.
    connect-IsValid :
        (bev : ℕ) (b : E.Bev) (t : Attempt E) (c : Con E)
        → IsAttempt t
        → IsValid P c
        → is_zero c.m_fd ≡ true
        → Safe (IsValidResult P) (
            early U t.early_events (put bev b c) >>= λ c'.
            take_socket U t.connects bev t.socket_fd c')
    connect-IsValid bev b t c h v z = elim h.quiet [
      | inl q ↦
          let n : (put bev b c).m_buf_e ≡ none = put-m_buf_e bev b c ∙ idle-m_buf_e c v z in
          rw (q, early-none (put bev b c))
            (take_socket-IsValid t.connects bev t.socket_fd (put bev b c) b n (put_live bev b c)
              h.nonzero (put-IsValid bev b c v))
      | inr (e, q, f, g) ↦ rw g (
          Safe->>= (early U t.early_events (put bev b c)) _
            (early-IsValid t.early_events (put bev b c) (put-IsValid bev b c v) (inr (e, q, f)))
            (λ d w. take_failed bev t.socket_fd d w))
    ]

    connect_by_addr-IsValid :
        (t : Attempt E) (c : Con E)
        → Answers t
        → IsValid P c
        → is_zero c.m_fd ≡ true
        → Safe (IsValidResult P) (connect_by_addr U t c)
    unfolding connect_by_addr
    connect_by_addr-IsValid t c h v z = elim (Bool-cases (c.m_addr.sin_port == 0)) [
      | inl p ↦ rw p (safe (c, false) refl v)
      | inr p ↦ elim h [
        | inl n ↦ rw (p, n) (safe (c, false) refl v)
        | inr a ↦ rw (p, a.nonneg) (go a t.new_bev)
      ]
    ]
      where
        go :
            IsAttempt t
            → (o : Option (ℕ × E.Bev))
            → Safe (IsValidResult P) (elim o [
              | none ↦ ok (c, false)
              | some n ↦ early U t.early_events (put n.0 n.1 c) >>= λ c'.
                  take_socket U t.connects n.0 t.socket_fd c'
            ])
        go a none = safe (c, false) refl v
        go a (some n) = connect-IsValid n.0 n.1 t c a v z

  module _ (U : Handlers E) (u : Respects P U) where
    set_addr-IsValid :
        (a : SockAddr) (c : Con E) → IsValid P c → IsValid P (record c { m_addr = a })
    set_addr-IsValid a c (idle x f k l alive q) = idle x f k l alive q
    set_addr-IsValid a c (attached bev b x e f alive q) = attached bev b x e f alive q

    pub set_max-IsValid : (n : ℕ) (c : Con E) → IsValid P c → IsValid P (set_max_send_buf_size n c)
    unfolding set_max_send_buf_size
    set_max-IsValid n c (idle x f k l alive q) = idle x f k l alive q
    set_max-IsValid n c (attached bev b x e f alive q) = attached bev b x e f alive q

    not_zero : (z : ℤ) → not (is_zero z) ≡ false → is_zero z ≡ true
    not_zero z h = ground arith

    pub connect_init_ip-IsValid :
        (ip : Option (List ℕ)) (port : ℕ) (t : Attempt E) (c : Con E)
        → IsValid P c
        → Answers t
        → Safe (IsValidResult P) (connect_init_ip U ip port t c)
    unfolding connect_init_ip
    connect_init_ip-IsValid none port t c v h = safe (c, false) refl v
    connect_init_ip-IsValid (some ip) port t c v h = elim (Bool-cases (not (is_zero c.m_fd))) [
      | inl z ↦ rw z (safe (c, false) refl v)
      | inr z ↦ elim (Bool-cases (port == 0)) [
        | inl q ↦ rw (z, q) (safe (c, false) refl v)
        | inr q ↦
            rw (z, q)
              (connect_by_addr-IsValid U u t (set_addr_ip ip port c) h (set_addr-IsValid _ c v)
                (not_zero c.m_fd z))
      ]
    ]

    pub connect_init_addr-IsValid :
        (addr : SockAddr) (t : Attempt E) (c : Con E)
        → IsValid P c
        → Answers t
        → Safe (IsValidResult P) (connect_init_addr U addr t c)
    unfolding connect_init_addr
    connect_init_addr-IsValid addr t c v h = elim (Bool-cases (not (is_zero c.m_fd))) [
      | inl z ↦ rw z (safe (c, false) refl v)
      | inr z ↦ rw z (
          connect_by_addr-IsValid U u t (set_addr addr c) h (set_addr-IsValid addr c v)
            (not_zero c.m_fd z))
    ]

    pub try_reconnect-IsValid :
        (t : Attempt E) (c : Con E)
        → IsValid P c
        → Answers t
        → Safe (IsValidResult P) (try_reconnect U t c)
    unfolding try_reconnect
    try_reconnect-IsValid t c v h = elim (Bool-cases (is_zero c.m_fd)) [
      | inl z ↦ rw z (connect_by_addr-IsValid U u t c h v z)
      | inr z ↦ rw z (safe (c, false) refl v)
    ]

    pub setwatermark-IsValid :
        (events low high : ℕ) (c : Con E)
        → IsValid P c
        → Safe (IsValid P) (setwatermark events low high c)
    unfolding setwatermark
    setwatermark-IsValid events low high c (idle a f k l alive q) =
        safe c (ground arith) (idle a f k l alive q)
    setwatermark-IsValid events low high c (attached bev b a e f alive q) =
        elim (Bool-cases c.m_is_connect) [
          | inl t ↦
              safe (put bev (E.setwatermark b events low high) c) (ground (arith, t, f, a, e)) (
                put-IsValid bev (E.setwatermark b events low high) c (attached bev b a e f alive q))
          | inr t ↦ safe c (ground (arith, t)) (attached bev b a e f alive q)
        ]
