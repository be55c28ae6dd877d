-- ===== src/Con/Client.antt =====
-- src/connector.cc, the class ClientCon: a ConCom that asks for its connection. What the system
-- answers to one attempt is an argument.
use libevent_cpp.Prelude.{ℕ, Bool, true, false, not, Option, none, some, List, ◌==◌, if◌then◌else◌}
use libevent_cpp.Prelude.Int.{ℤ, is_neg, is_zero}
use libevent_cpp.Prelude.Outcome.{Outcome, ok, ◌>>=◌}
use libevent_cpp.Env.{Env}
use libevent_cpp.Con.{
  Con, Handlers, SockAddr, put, still_there, bufferevent_free, set_socket_info, set_addr_ip,
  set_addr, is_wait_connect_req, conn_event_callback,
}

-- The answers: what socket() returns; the bufferevent that bufferevent_socket_new makes, if any;
-- the events that libevent reports before bufferevent_socket_connect returns, if any; and whether
-- that call returns 0.
pub record Attempt (E : Env) : Type 0 where
  pub socket_fd : ℤ
  pub new_bev : Option (ℕ × E.Bev)
  pub early_events : Option ℕ
  pub connects : Bool

module _ {E : Env} (U : Handlers E) where
  unfoldable pub early : Option ℕ → Con E → Outcome (Con E)
  unfolding conn_event_callback
  early none c = ok c
  early (some events) c = conn_event_callback U events c

  -- After bufferevent_socket_connect. Both ways the log or the rest reads the object. Where
  -- it failed, the bufferevent is not freed.
  unfoldable pub take_socket : Bool → ℕ → ℤ → Con E → Outcome (Con E × Bool)
  unfolding bufferevent_free set_socket_info still_there
  take_socket false bev fd c1 = still_there c1 >>= λ c. ok (c, false)
  take_socket true bev fd c1 = still_there c1 >>= λ c.
      let r = set_socket_info (some bev) fd none c in
      if r.1 then ok (r.0, true) else (bufferevent_free bev r.0 >>= λ c'. ok (c', false))

  unfoldable pub connect_by_addr : Attempt E → Con E → Outcome (Con E × Bool)
  unfolding early take_socket put
  connect_by_addr t c =
      if c.m_addr.sin_port == 0
      then ok (c, false)
      else if is_neg t.socket_fd
      then ok (c, false)
      else (elim t.new_bev [
        | none ↦ ok (c, false)
        | some n ↦
            early t.early_events (put n.0 n.1 c) >>= λ c'. take_socket t.connects n.0 t.socket_fd c'
      ])

  unfoldable pub connect_init_ip : Option (List ℕ) → ℕ → Attempt E → Con E → Outcome (Con E × Bool)
  unfolding set_addr_ip connect_by_addr
  connect_init_ip none connect_port t c = ok (c, false)
  connect_init_ip (some connect_ip) connect_port t c =
      if not (is_zero c.m_fd)
      then ok (c, false)
      else if connect_port == 0
      then ok (c, false)
      else connect_by_addr t (set_addr_ip connect_ip connect_port c)

  unfoldable pub connect_init_addr : SockAddr → Attempt E → Con E → Outcome (Con E × Bool)
  unfolding set_addr connect_by_addr
  connect_init_addr svr_addr t c =
      if not (is_zero c.m_fd) then ok (c, false) else connect_by_addr t (set_addr svr_addr c)

  unfoldable pub try_reconnect : Attempt E → Con E → Outcome (Con E × Bool)
  unfolding is_wait_connect_req connect_by_addr
  try_reconnect t c = if is_wait_connect_req c then connect_by_addr t c else ok (c, false)
