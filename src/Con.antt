-- ===== src/Con.antt =====
-- include/connector.h and src/connector.cc: the class ConCom, one socket connection over a libevent
-- bufferevent. A method takes the object and returns it with its result. `bevs` is the part of the
-- heap that holds bufferevents, `none` where one is not allocated or is freed; `user` is whatever
-- the derived class and its callbacks keep. `is_deleted` is true once the memory of the object is
-- given back, which the user's code may do inside a virtual method; it is tested where ConCom goes
-- on to use the object after one. The virtual methods are the fields of `Handlers`.
pub mod Frames
pub mod Framing
pub mod Read
pub mod Receive
pub mod Serving
pub mod Delivery
pub mod Bound
pub mod Dropping
pub mod Raw
pub mod Session
pub mod Keeping
pub mod Send
pub mod Sending
pub mod Transmission
pub mod Client
pub mod Connect
pub mod Valid
pub mod Deleting
pub mod Alone
pub mod Methods
use libevent_cpp.Prelude.{
  ℕ, ◌*◌, ◌/◌, ◌%◌, Bool, true, false, Option, none, some, List, ◌==◌, if◌then◌else◌, drop,
}
use libevent_cpp.Prelude.Int.{ℤ, pos, is_zero}
use libevent_cpp.Prelude.Outcome.{Outcome, ok, fault, Fault, ◌>>=◌}
use libevent_cpp.Bytes.{load_u32, auto_hton16, auto_ntoh16}
use libevent_cpp.Env.{Env}

abbrev pub max_msg_data_len : ℕ
max_msg_data_len = 1024 * 1024 * 1

abbrev pub max_max_send_buf_size : ℕ
max_max_send_buf_size = 1024 * 1024

-- A MsgPack of which the first `len` bytes of `data` count.
pub record MsgPack : Type 0 where
  pub len : ℕ
  pub data_bytes : List ℕ

-- A pointer into a byte buffer, read as a MsgPack: the packed struct starts with its length.
unfoldable pub cast_pack : List ℕ → MsgPack
cast_pack mem = record { len = load_u32 mem; data_bytes = drop 4 mem }

-- struct sockaddr_in, address and port in network order.
pub record SockAddr : Type 0 where
  pub sin_family : ℕ
  pub s_addr : ℕ
  pub sin_port : ℕ

abbrev pub zero_addr : SockAddr
zero_addr = record { sin_family = 0; s_addr = 0; sin_port = 0 }

abbrev pub af_inet : ℕ
af_inet = 2

-- `bevs` holds the bufferevents that are allocated and not freed. One that was freed is in `dying`: it
-- stays in memory until libevent's event loop finalizes it, when the callback under way has
-- returned.
pub record Con (E : Env) : Type 0 where
  pub m_buf_e : Option ℕ
  pub m_addr : SockAddr
  pub m_fd : ℤ
  pub m_msbs : ℕ
  pub m_is_connect : Bool
  pub m_no_ev_cb_log : Bool
  pub m_rev_pack_len : ℕ
  pub m_is_raw_read_cb : Bool
  pub is_deleted : Bool
  pub bevs : ℕ → Option (E.Bev)
  pub dying : ℕ → Option (E.Bev)
  pub user : E.User

-- The virtual methods of the derived class.
pub record Handlers (E : Env) : Type 0 where
  pub on_recv : MsgPack → Con E → Outcome (Con E)
  pub on_connected : Con E → Outcome (Con E)
  pub on_error : ℕ → Con E → Outcome (Con E)
  pub on_disconnected : Con E → Outcome (Con E)
  pub on_raw_recv : Option (List ℕ) → ℤ → Con E → Outcome (Con E × ℤ)

-- A cell of the bufferevent heap is given a new content.
abbrev pub update : {A : Type 0} → (ℕ → Option A) → ℕ → Option A → ℕ → Option A
update f p v q = if p == q then v else f q

module _ (E : Env) where
  -- The constructor, over the heap and the user's state as they are.
  unfoldable pub new_con : (ℕ → Option (E.Bev)) → E.User → Con E
  new_con bevs user = record {
    m_buf_e = none;
    m_addr = zero_addr;
    m_fd = pos 0;
    m_msbs = max_max_send_buf_size;
    m_is_connect = false;
    m_no_ev_cb_log = false;
    m_rev_pack_len = 0;
    m_is_raw_read_cb = false;
    is_deleted = false;
    bevs = bevs;
    dying = λ p. none;
    user = user;
  }

  -- The move constructor takes nothing over from its source.
  unfoldable move_con : Con E → (ℕ → Option (E.Bev)) → E.User → Con E
  unfolding new_con
  move_con src bevs user = new_con bevs user

module _ {E : Env} where
  unfoldable set_raw_read_cb : Bool → Con E → Con E
  set_raw_read_cb is_raw_cb c = record c { m_is_raw_read_cb = is_raw_cb }

  unfoldable pub is_wait_connect_req : Con E → Bool
  is_wait_connect_req c = is_zero c.m_fd

  pub set_max_send_buf_size : ℕ → Con E → Con E
  set_max_send_buf_size num c = record c { m_msbs = num }

  unfoldable pub set_event_cb_log : Bool → Con E → Con E
  set_event_cb_log no_ev_cb_log c = record c { m_no_ev_cb_log = no_ev_cb_log }

  unfoldable pub set_is_connect : Bool → Con E → Con E
  set_is_connect is_connect c = record c { m_is_connect = is_connect }

  -- A read through a pointer to a bufferevent.
  unfoldable pub deref : ℕ → Con E → Outcome (E.Bev)
  deref bev c = elim (c.bevs bev) [
    | some b ↦ ok b
    | none ↦ elim (c.dying bev) [ some b ↦ ok b | none ↦ fault Fault.use_after_free ]
  ]

  unfoldable pub put : ℕ → E.Bev → Con E → Con E
  put bev b c = record c { bevs = update c.bevs bev (some b) }

  -- What is done to a bufferevent is done where it lies.
  unfoldable pub store : ℕ → E.Bev → Con E → Con E
  unfolding put
  store bev b c = elim (c.bevs bev) [
    | some old ↦ put bev b c
    | none ↦ record c { dying = update c.dying bev (some b) }
  ]

  -- The event loop has finalized what was freed in earlier callbacks.
  unfoldable pub settle : Con E → Con E
  settle c = record c { dying = λ p. none }

  -- bufferevent_free with BEV_OPT_CLOSE_ON_FREE.
  unfoldable pub bufferevent_free : ℕ → Con E → Outcome (Con E)
  bufferevent_free bev c = elim (c.bevs bev) [
    | none ↦ fault Fault.use_after_free
    | some b ↦ ok (record c { bevs = update c.bevs bev none; dying = update c.dying bev (some b) })
  ]

  -- The part of Free that follows the release of the bufferevent.
  unfoldable pub reset : Con E → Con E
  reset c = record c { m_buf_e = none; m_fd = pos 0; m_is_connect = false; m_rev_pack_len = 0 }

  unfoldable pub free : Con E → Outcome (Con E)
  unfolding bufferevent_free reset
  free c = elim c.m_buf_e [
    | none ↦ ok (reset c)
    | some bev ↦ bufferevent_free bev c >>= λ c'. ok (reset c')
  ]

  -- `buf_e` is `none` for a null pointer, and so is `sa`.
  unfoldable pub set_socket_info : Option ℕ → ℤ → Option SockAddr → Con E → Con E × Bool
  set_socket_info none fd sa c = (c, false)
  set_socket_info (some bev) fd sa c = elim c.m_buf_e [
    | some old ↦ (c, false)
    | none ↦ (
      record c { m_buf_e = some bev; m_fd = fd; m_addr = elim sa [ none ↦ c.m_addr | some a ↦ a ] },
      true,
    )
  ]

  unfoldable pub set_addr_ip : List ℕ → ℕ → Con E → Con E
  set_addr_ip connect_ip connect_port c = record c {
    m_addr = record {
      sin_family = af_inet;
      s_addr = E.inet_addr connect_ip;
      sin_port = auto_hton16 connect_port;
    };
  }

  unfoldable pub set_addr : SockAddr → Con E → Con E
  set_addr svr_addr c = record c { m_addr = svr_addr }

  unfoldable pub disconnect : Handlers E → Con E → Outcome (Con E)
  unfolding free
  disconnect U c = if is_zero c.m_fd then ok c else (free c >>= λ c'. U.on_disconnected c')

  unfoldable get_remote_port : Con E → ℕ
  get_remote_port c = auto_ntoh16 c.m_addr.sin_port

  -- `inet_ntoa` is the function of the system.
  unfoldable get_remote_ip : (ℕ → List ℕ) → Con E → List ℕ
  get_remote_ip inet_ntoa c = inet_ntoa c.m_addr.s_addr

  unfoldable get_remote_addr : (ℕ → List ℕ) → Con E → List ℕ × ℕ
  get_remote_addr inet_ntoa c = (inet_ntoa c.m_addr.s_addr, auto_ntoh16 c.m_addr.sin_port)

  -- A use of the object by its own code, after a virtual method.
  unfoldable pub still_there : Con E → Outcome (Con E)
  still_there c = if c.is_deleted then fault Fault.use_after_free else ok c

  -- `events` is the mask of event2/bufferevent.h, in which BEV_EVENT_CONNECTED is 0x80.
  unfoldable pub conn_event_callback : Handlers E → ℕ → Con E → Outcome (Con E)
  unfolding disconnect still_there
  conn_event_callback U events c =
      if events / 0x80 % 2 == 1
      then U.on_connected (record c { m_is_connect = true })
      else (U.on_error events c >>= λ c1. still_there c1 >>= λ c'. disconnect U c')

  unfoldable eventcb : Handlers E → ℕ → Con E → Outcome (Con E)
  unfolding conn_event_callback
  eventcb U events c = conn_event_callback U events c

  -- conn_write_callback has no statement.
  unfoldable writecb : Con E → Con E
  writecb c = c

  -- ~ConCom, and what is left of the object.
  unfoldable pub destroy_con : Con E → Outcome (Con E)
  unfolding free
  destroy_con c = free c

  -- `delete` of the object.
  unfoldable pub delete_this : Con E → Outcome (Con E)
  unfolding destroy_con
  delete_this c = destroy_con c >>= λ c'. ok (record c' { is_deleted = true })
