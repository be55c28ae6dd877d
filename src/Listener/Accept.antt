-- ===== src/Listener/Accept.antt =====
-- What accepting and dropping a server's connection come to.
use libevent_cpp.Prelude.{
  ℕ, ◌≡◌, refl, ap, sym, ◌∙◌, Bool, true, false, Option, none, some, [], ◌∷◌, ◌++◌, arith, inl, inr,
  ==_iff,
}
use libevent_cpp.Prelude.Int.{ℤ, is_zero}
use libevent_cpp.Prelude.Outcome.{ok, ◌>>=◌}
use libevent_cpp.Env.{Env}
use libevent_cpp.Con.{
  Con, Handlers, SockAddr, new_con, put, reset, free, bufferevent_free, set_socket_info, set_addr,
  set_is_connect, disconnect, update,
}
use libevent_cpp.ConMgr.{
  ConMgr, find_conn, post_del_conn, create_connect_for_listener, svr_id, next_seed,
}
use libevent_cpp.ConMgr.Registry.{lookup-assign}
use libevent_cpp.ConMgr.Owned
use libevent_cpp.ConMgr.Owned.{post_del_conn_cases, post_del_conn_absent}
use libevent_cpp.Con.Valid.{Anything, IsValid, idle, attached}
use libevent_cpp.Listener.{
  Manages, Listener, accept_init, svr_handlers, svr_disconnect, listener_cb,
}

module _ {E : Env} where
  -- A new connection object, once AcceptInit gets a bufferevent for an accepted socket, is connected
  -- through it when OnConnected is called, and knows the peer by the address that accept gave, if it
  -- gave one.
  pub accept_init_new :
      (U : Handlers E) (fd : ℤ) (sa : Option SockAddr) (svr_addr : SockAddr) (bev : ℕ) (b : E.Bev)
      (c : Con E)
      → c.m_buf_e ≡ none
      → is_zero c.m_fd ≡ true
      → is_zero fd ≡ false
      → c.is_deleted ≡ false
      → (d : Con E) × (accept_init U fd sa svr_addr (some (bev, b)) c
          ≡ (U.on_connected d >>= λ c'. ok (c', true)))
        × IsValid Anything d
        × (d.m_is_connect ≡ true)
        × (d.m_fd ≡ fd)
        × (d.m_addr ≡ elim sa [ none ↦ svr_addr | some a ↦ a ])
        × (d.user ≡ c.user)
        × (d.m_buf_e ≡ some bev)
        × (d.bevs bev ≡ some b)
        × (d.m_rev_pack_len ≡ c.m_rev_pack_len)
        × (d.m_is_raw_read_cb ≡ c.m_is_raw_read_cb)
        × (d.is_deleted ≡ c.is_deleted)
  unfolding accept_init put set_socket_info set_addr set_is_connect
  accept_init_new U fd sa svr_addr bev b c n z f alive =
      let d : Con E = record c {
        m_buf_e = some bev;
        m_fd = fd;
        m_addr = elim sa [ none ↦ svr_addr | some a ↦ a ];
        m_is_connect = true;
        bevs = update c.bevs bev (some b);
      } in
      (
        d,
        ground arith,
        attached bev b refl (ground arith) f alive tt,
        refl,
        refl,
        refl,
        refl,
        refl,
        ground arith,
        refl,
        refl,
        refl,
      )

  module _ (M : Manages (E.User)) where
    pub disconnect_svr :
        (id : ℕ) (app : Handlers E) (c : Con E)
        → IsValid Anything c
        → is_zero c.m_fd ≡ false
        → (d : Con E) × (disconnect (svr_handlers M id app) c ≡ ok d)
          × (M.get d.user ≡ (post_del_conn id (M.get c.user)).0)
          × (is_zero d.m_fd ≡ true)
          × ((p : ℕ) → c.m_buf_e ≡ some p → d.bevs p ≡ none)
          × (d.m_buf_e ≡ none)
          × (d.is_deleted ≡ c.is_deleted)
          × ((p : ℕ) (b : E.Bev) → c.m_buf_e ≡ some p → c.bevs p ≡ some b → d.dying p ≡ some b)
    unfolding disconnect svr_handlers free reset bufferevent_free
    disconnect_svr id app c (idle a f k l alive q) z = cc
    disconnect_svr id app c (attached bev b a e f alive q) z =
        let d : Con E =
          record (reset
            (record c { bevs = update c.bevs bev none; dying = update c.dying bev (some b) })) {
              user = M.set (post_del_conn id (M.get c.user)).0 c.user;
            } in
        (
          d,
          ground arith,
          M.get-set (post_del_conn id (M.get c.user)).0 c.user,
          refl,
          λ p h. ground (arith, a, h),
          refl,
          refl,
          λ p b' h l. ground (arith, a, e, h, l),
        )

    -- SvrCon::DisConnect of a connection that is up and registered closes it and posts it for
    -- deletion, and then answers false: the second PostDelConn no longer finds it. Its bufferevent
    -- is freed, and it has none any more.
    pub svr_disconnect_up :
        (id p : ℕ) (app : Handlers E) (c : Con E)
        → IsValid Anything c
        → is_zero c.m_fd ≡ false
        → Owned.IsValid (M.get c.user)
        → find_conn id (M.get c.user) ≡ some p
        → (d : Con E) × (svr_disconnect M id app c ≡ ok (d, false))
          × (is_zero d.m_fd ≡ true)
          × (find_conn id (M.get d.user) ≡ none)
          × ((M.get d.user).m_vwdc ≡ (M.get c.user).m_vwdc ++ p ∷ [])
          × ((bev : ℕ) → c.m_buf_e ≡ some bev → d.bevs bev ≡ none)
          × (M.get d.user ≡ (post_del_conn id (M.get c.user)).0)
          × (d.m_buf_e ≡ none)
          × (d.is_deleted ≡ c.is_deleted)
    unfolding svr_disconnect
    svr_disconnect_up id p app c v z o r =
        let (d, run, g, z', freed, bare, there, dies) = disconnect_svr id app c v z in
        elim (post_del_conn_cases id (M.get c.user) o) [
          | inl (n, q) ↦ cc
          | inr (p', m1, f, q, gone, others, objs, waits) ↦
              let now : M.get d.user ≡ m1 = g ∙ ap (λ (s : ConMgr × Bool). s.0) q in
              let absent : post_del_conn id (M.get d.user) ≡ (m1, false) =
                rw now (post_del_conn_absent id m1 gone) in
              let last : M.get (M.set m1 d.user) ≡ m1 = M.get-set m1 d.user in
              let same : p' ≡ p = cc in
              (
                record d { user = M.set m1 d.user },
                rw run (λ i. ok (record d { user = M.set (absent i).0 d.user }, (absent i).1)),
                z',
                rw last gone,
                rw last (rw same at waits),
                freed,
                last ∙ sym (ap (λ (s : ConMgr × Bool). s.0) q),
                bare,
                there,
              )
        ]

    -- Called on one that is not up, it only posts, and answers whether it was registered.
    svr_disconnect_down :
        (id : ℕ) (app : Handlers E) (c : Con E)
        → is_zero c.m_fd ≡ true
        → (d : Con E) × (svr_disconnect M id app c ≡ ok (d, (post_del_conn id (M.get c.user)).1))
          × (M.get d.user ≡ (post_del_conn id (M.get c.user)).0)
    unfolding svr_disconnect disconnect
    svr_disconnect_down id app c z = (
      record c { user = M.set (post_del_conn id (M.get c.user)).0 c.user },
      rw z refl,
      M.get-set (post_del_conn id (M.get c.user)).0 c.user,
    )

    -- An accepted socket for which libevent gives no bufferevent: the new object has no connection,
    -- so nothing will ever disconnect it, and it stays in the registry.
    pub accept_fail_registered :
        (l : Listener) (app : Handlers E) (p sec : ℕ) (fd : ℤ) (sa : Option SockAddr)
        (bevs : ℕ → Option (E.Bev)) (user : E.User)
        → let id = svr_id sec (next_seed (M.get user).seed) in
          (d : Con E) × (u : E.User) × (listener_cb M l id app (some p) sec fd sa none bevs user
            ≡ ok (some d, u))
          × (is_zero d.m_fd ≡ true)
          × (find_conn id (M.get u) ≡ some p)
          × (u ≡ d.user)
    unfolding listener_cb accept_init create_connect_for_listener find_conn new_con set_addr
    accept_fail_registered l app p sec fd sa bevs user =
        let id = svr_id sec (next_seed (M.get user).seed) in
        let m = (create_connect_for_listener (some p) sec (M.get user)).0 in
        let d : Con E = record (new_con E bevs (M.set m user)) { m_addr = l.m_addr } in
        (
          d,
          M.set m user,
          refl,
          refl,
          rw
              (
                M.get-set m user,
                lookup-assign id id p (M.get user).m_all_connector,
                (==_iff id id).1 refl,
              )
              refl,
          refl,
        )
