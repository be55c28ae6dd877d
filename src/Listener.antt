-- ===== src/Listener.antt =====
-- src/listener.cc and include/listener.h: SvrCon, a connection that a BaseConMgr owns, and Listener,
-- which makes them. The manager is a part of the user's state of the connection: `get` and `set` are
-- what the pointer m_cn_mgr gives.
pub mod Accept
pub mod System
use libevent_cpp.Prelude.{ℕ, ◌≡◌, Bool, true, false, not, Option, none, some, List, if◌then◌else◌}
use libevent_cpp.Prelude.Int.{ℤ, pos, is_zero}
use libevent_cpp.Prelude.Outcome.{Outcome, ok, ◌>>=◌}
use libevent_cpp.Bytes.{auto_hton16}
use libevent_cpp.Env.{Env}
use libevent_cpp.Con.{
  Con, Handlers, SockAddr, zero_addr, af_inet, new_con, put, bufferevent_free, set_socket_info,
  set_addr, set_is_connect, disconnect,
}
use libevent_cpp.ConMgr.{ConMgr, post_del_conn, create_connect_for_listener}

-- Where the user's state of a connection keeps the manager.
pub record Manages (User : Type 0) : Type 0 where
  pub get : User → ConMgr
  pub set : ConMgr → User → User
  pub get-set : (m : ConMgr) (u : User) → get (set m u) ≡ m

pub record Listener : Type 0 where
  -- Whether m_listener is not null.
  pub m_listener : Bool
  pub m_addr : SockAddr

-- Both constructors; they differ in the manager that is used.
unfoldable new_listener : Listener
new_listener = record { m_listener = false; m_addr = zero_addr }

init_addr : SockAddr → Bool → Listener → Listener × Bool
init_addr addr bound l = (record { m_listener = bound; m_addr = addr }, bound)

-- Init by port: with no address, the one of memset, which is INADDR_ANY.
unfoldable init_port : Env → ℕ → Option (List ℕ) → Bool → Listener → Listener × Bool
unfolding init_addr
init_port E listen_port listen_ip bound l =
    init_addr
      (record {
        sin_family = af_inet;
        s_addr = elim listen_ip [ none ↦ 0 | some ip ↦ E.inet_addr ip ];
        sin_port = auto_hton16 listen_port;
      })
      bound l

-- ~Listener.
unfoldable destroy_listener : Listener → Listener
destroy_listener l = record l { m_listener = false }

module _ {E : Env} where
  -- bufferevent_socket_new gives `new_bev`, or null.
  unfoldable pub accept_init :
      Handlers E
      → ℤ
      → Option SockAddr
      → SockAddr
      → Option (ℕ × E.Bev)
      → Con E
      → Outcome (Con E × Bool)
  accept_init U fd sa svr_addr new_bev c =
      let c0 = set_addr svr_addr c in
      if not (is_zero c0.m_fd) then ok (c0, false) else (elim new_bev [
        | none ↦ ok (c0, false)
        | some n ↦
            let r = set_socket_info (some n.0) fd sa (put n.0 n.1 c0) in
            if r.1
            then (U.on_connected (set_is_connect true r.0) >>= λ c'. ok (c', true))
            else (bufferevent_free n.0 r.0 >>= λ c'. ok (c', false))
      ])

  -- NoUseListenerConnector, with what ConCom gives for the rest.
  unfoldable pub no_use_listener_connector : Handlers E
  no_use_listener_connector = record {
    on_recv = λ msg c. ok c;
    on_connected = λ c. ok c;
    on_error = λ events c. ok c;
    on_disconnected = λ c. ok c;
    on_raw_recv = λ msg len c. ok (c, pos 0);
  }

  module _ (M : Manages (E.User)) where
    -- SvrCon::OnDisconnected.
    pub svr_on_disconnected : ℕ → Con E → Outcome (Con E)
    svr_on_disconnected id c =
        ok (record c { user = M.set (post_del_conn id (M.get c.user)).0 c.user })

    -- The virtual methods of a class derived from SvrCon, which overrides all but OnDisconnected.
    unfoldable pub svr_handlers : ℕ → Handlers E → Handlers E
    unfolding svr_on_disconnected
    svr_handlers id app = record app { on_disconnected = svr_on_disconnected id }

    -- SvrCon::DisConnect.
    pub svr_disconnect : ℕ → Handlers E → Con E → Outcome (Con E × Bool)
    svr_disconnect id app c = disconnect (svr_handlers id app) c >>= λ c'.
        let r = post_del_conn id (M.get c'.user) in ok (record c' { user = M.set r.0 c'.user }, r.1)

    -- Listener::listener_cb: NewConnect gives `p` or null at time `sec`; `id` is the identifier that
    -- the object got, and `app` its class. The new object, if there is one, and the user's state.
    unfoldable pub listener_cb :
        Listener
        → ℕ
        → Handlers E
        → Option ℕ
        → ℕ
        → ℤ
        → Option SockAddr
        → Option (ℕ × E.Bev)
        → (ℕ → Option (E.Bev))
        → E.User
        → Outcome (Option (Con E) × E.User)
    listener_cb l id app none sec fd sa new_bev bevs user = ok (none, user)
    listener_cb l id app (some p) sec fd sa new_bev bevs user =
        let m = (create_connect_for_listener (some p) sec (M.get user)).0 in
        accept_init (svr_handlers id app) fd sa l.m_addr new_bev (new_con E bevs (M.set m user))
        >>= λ r. ok (some r.0, r.0.user)
