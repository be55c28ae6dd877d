-- ===== src/Con/Methods.antt =====
-- The calls that ConCom and ClientCon take, from the user's code and from libevent, as one type,
-- and the states that they can lead to.
pub mod Connecting
pub mod Guards
pub mod Safety
use libevent_cpp.Prelude.{
  ℕ, ◌/◌, ◌%◌, ◌^◌, ◌≡◌, refl, sym, ◌∙◌, Bool, true, false, not, ◌||◌, Option, none, some, List,
  arith, ◌==◌, if◌then◌else◌, Bool-cases, inl, inr, ◌⊎◌, ltb, length, take,
}
use libevent_cpp.Prelude.Int.{ℤ, is_neg, is_zero, to_size}
use libevent_cpp.Prelude.Outcome.{Outcome, ok, ◌>>=◌, Safe, safe, Safe->>=}
use libevent_cpp.Env.{Env}
use libevent_cpp.Con.{
  Con, Handlers, MsgPack, SockAddr, settle, new_con, deref, put, disconnect, set_socket_info,
  set_addr, set_addr_ip, conn_event_callback, update, bufferevent_free, is_wait_connect_req,
  set_max_send_buf_size, max_msg_data_len,
}
use libevent_cpp.Con.Send.{
  bufferevent_write, write_frame, checked, send_pack, send_pack_string, send_data_pack,
  send_data_raw, setwatermark,
}
use libevent_cpp.Con.Client.{
  Attempt, early, take_socket, connect_by_addr, connect_init_ip, connect_init_addr, try_reconnect,
}
use libevent_cpp.Con.Valid.{
  Anything, IsValid, idle, attached, Respects, IsValidResult, At, At-IsValid, put-At,
  write_frame-At, bufferevent_write-At, disconnect-IsValid, checked-IsValid,
}

pub data Method (E : Env) : Type 0 where
  call_disconnect : Method E
  call_send_pack : Option (List ℕ) → ℕ → Method E
  call_send_pack_string : List ℕ → Method E
  call_send_data_pack : MsgPack → Method E
  call_send_data_raw : Option (List ℕ) → ℤ → Method E
  call_setwatermark : ℕ → ℕ → ℕ → Method E
  call_set_max_send_buf_size : ℕ → Method E
  call_eventcb : ℕ → Method E
  call_connect_init_ip : Option (List ℕ) → ℕ → Attempt E → Method E
  call_connect_init_addr : SockAddr → Attempt E → Method E
  call_try_reconnect : Attempt E → Method E

abbrev pub is_connected_event : ℕ → Bool
is_connected_event events = events / 0x80 % 2 == 1

module _ {E : Env} where
  -- What the system answers to an attempt that gets a socket: a new socket is not descriptor 0, and events are
  -- reported before bufferevent_socket_connect returns only for an attempt that fails, and then no
  -- BEV_EVENT_CONNECTED.
  pub record IsAttempt (t : Attempt E) : Type 0 where
    pub nonzero : is_zero t.socket_fd ≡ false
    pub nonneg : is_neg t.socket_fd ≡ false
    pub quiet :
        (t.early_events ≡ none)
        ⊎ ((e : ℕ) × (t.early_events ≡ some e)
            × (is_connected_event e ≡ false)
            × (t.connects ≡ false))

  -- No socket, or one that goes as above.
  abbrev pub Answers : Attempt E → Type 0
  Answers t = (is_neg t.socket_fd ≡ true) ⊎ IsAttempt t

  -- libevent reports BEV_EVENT_CONNECTED only for a bufferevent that is there.
  abbrev pub Allowed : Method E → Con E → Type 0
  Allowed (call_eventcb e) c = (is_connected_event e ≡ false) ⊎ ((bev : ℕ) × At Anything bev c)
  Allowed (call_connect_init_ip ip port t) c = Answers t
  Allowed (call_connect_init_addr addr t) c = Answers t
  Allowed (call_try_reconnect t) c = Answers t
  Allowed _ c = Unit {0}

  module _ (U : Handlers E) where
    abbrev returning : Outcome (Con E) → Outcome (Con E × Bool)
    returning m = m >>= λ c. ok (c, true)

    unfoldable pub call_method : Method E → Con E → Outcome (Con E × Bool)
    call_method call_disconnect c = returning (disconnect U c)
    call_method (call_send_pack body len) c = send_pack U body len c
    call_method (call_send_pack_string msg) c = send_pack_string U msg c
    call_method (call_send_data_pack msg) c = send_data_pack U msg c
    call_method (call_send_data_raw body len) c = send_data_raw U body len c
    call_method (call_setwatermark events low high) c = returning (setwatermark events low high c)
    call_method (call_set_max_send_buf_size num) c = ok (set_max_send_buf_size num c, true)
    call_method (call_eventcb events) c = returning (conn_event_callback U events c)
    call_method (call_connect_init_ip ip port t) c = connect_init_ip U ip port t c
    call_method (call_connect_init_addr addr t) c = connect_init_addr U addr t c
    call_method (call_try_reconnect t) c = try_reconnect U t c

    -- What earlier calls freed counts as out of memory, also where the call is from the same callback.
    unfoldable pub run_method : Method E → Con E → Outcome (Con E × Bool)
    unfolding settle call_method
    run_method m c = call_method m (settle c)
