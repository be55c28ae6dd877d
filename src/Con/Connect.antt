-- ===== src/Con/Connect.antt =====
-- ClientCon::ConnectByAddr of src/connector.cc, by what the system answers.
use libevent_cpp.Prelude.{
  ℕ, ◌≡◌, refl, ◌⊎◌, inl, inr, true, false, none, some, ◌==◌, arith, Bool-cases, Option-cases,
}
use libevent_cpp.Prelude.Int.{is_neg}
use libevent_cpp.Prelude.Outcome.{ok}
use libevent_cpp.Env.{Env}
use libevent_cpp.Con.{Con, Handlers, put, still_there, set_socket_info, update}
use libevent_cpp.Con.Client.{Attempt, early, take_socket, connect_by_addr}

module _ {E : Env} (U : Handlers E) where
  -- An idle object, which is not deleted, with an address, and no event before the call of connect returns: without a
  -- socket or a bufferevent nothing changes and the answer is false; if the connecting is begun, the
  -- object takes both; and if that fails, the object stays idle, and the bufferevent stays
  -- allocated, though nothing refers to it.
  pub connect_by_addr_cases :
      (t : Attempt E) (c : Con E)
      → (c.m_addr.sin_port == 0) ≡ false
      → c.m_buf_e ≡ none
      → t.early_events ≡ none
      → c.is_deleted ≡ false
      → (((is_neg t.socket_fd ≡ true) ⊎ (t.new_bev ≡ none))
          × (connect_by_addr U t c ≡ ok (c, false)))
        ⊎ ((p : ℕ) × (b : E.Bev) × (d : Con E) × (t.new_bev ≡ some (p, b))
            × (connect_by_addr U t c ≡ ok (d, t.connects))
            × (d.bevs p ≡ some b)
            × (d.user ≡ c.user)
            × (d.m_buf_e ≡ (elim t.connects [ true ↦ some p | false ↦ none ]))
            × (d.m_fd ≡ (elim t.connects [ true ↦ t.socket_fd | false ↦ c.m_fd ])))
  unfolding connect_by_addr early take_socket still_there set_socket_info put
  connect_by_addr_cases t c port idle quiet alive = elim (Bool-cases (is_neg t.socket_fd)) [
    | inl n ↦ inl (inl n, ground (arith, port, n))
    | inr n ↦ elim (Option-cases t.new_bev) [
      | inl e ↦ inl (inr e, ground (arith, port, n, e))
      | inr ((p, b), e) ↦ elim (Bool-cases t.connects) [
        | inl k ↦ inr (
          p,
          b,
          record c { m_buf_e = some p; m_fd = t.socket_fd; bevs = update c.bevs p (some b) },
          e,
          ground (arith, port, n, e, quiet, idle, k),
          ground arith,
          refl,
          ground (arith, k),
          ground (arith, k),
        )
        | inr k ↦ inr (
          p,
          b,
          record c { bevs = update c.bevs p (some b) },
          e,
          ground (arith, port, n, e, quiet, idle, k),
          ground arith,
          refl,
          ground (arith, k, idle),
          ground (arith, k),
        )
      ]
    ]
  ]
