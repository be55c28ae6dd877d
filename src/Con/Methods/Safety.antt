-- ===== src/Con/Methods/Safety.antt =====
-- Every call that a ConCom or a ClientCon takes, one after the other.
use libevent_cpp.Prelude.{ℕ, ◌%◌, ◌^◌, ◌≡◌, refl, Bool, true, Option, some, subst, length}
use libevent_cpp.Prelude.Outcome.{ok_same, ok, Safe, safe, Safe->>=}
use libevent_cpp.Env.{Env}
use libevent_cpp.Con.{
  settle, Con, Handlers, new_con, disconnect, conn_event_callback, set_max_send_buf_size,
}
use libevent_cpp.Con.Send.{send_pack_string, setwatermark}
use libevent_cpp.Con.Valid.{attached, IsValid, idle, Respects, IsValidResult, disconnect-IsValid}
use libevent_cpp.Con.Methods.{
  Method, call_disconnect, call_send_pack, call_send_pack_string, call_send_data_pack,
  call_send_data_raw, call_setwatermark, call_set_max_send_buf_size, call_eventcb,
  call_connect_init_ip, call_connect_init_addr, call_try_reconnect, Allowed, call_method,
  run_method,
}
use libevent_cpp.Con.Methods.Connecting.{
  event-IsValid, set_max-IsValid, connect_init_ip-IsValid, connect_init_addr-IsValid,
  try_reconnect-IsValid, setwatermark-IsValid,
}
use libevent_cpp.Con.Methods.Guards.{
  send_pack-Guarded, send_data_pack-Guarded, send_data_raw-Guarded, Guarded-IsValid,
}

module _ {E : Env} where
  -- A call that returned, and any number of them from a new object.
  pub data Reach (U : Handlers E) (c : Con E) : Con E → Type 0 where
    here : Reach U c c
    next :
        {d : Con E}
        → Reach U c d
        → (m : Method E) → Allowed m d
        → (e : Con E) (r : Bool) → run_method U m d ≡ ok (e, r)
        → Reach U c e

settle-Allowed : {E : Env} (m : Method E) (c : Con E) → Allowed m c → Allowed m (settle c)
unfolding settle
settle-Allowed call_disconnect c h = tt
settle-Allowed (call_send_pack b n) c h = tt
settle-Allowed (call_send_pack_string s) c h = tt
settle-Allowed (call_send_data_pack p) c h = tt
settle-Allowed (call_send_data_raw b n) c h = tt
settle-Allowed (call_setwatermark e l k) c h = tt
settle-Allowed (call_set_max_send_buf_size n) c h = tt
settle-Allowed (call_eventcb e) c h = h
settle-Allowed (call_connect_init_ip ip port t) c h = h
settle-Allowed (call_connect_init_addr a t) c h = h
settle-Allowed (call_try_reconnect t) c h = h

module _ {E : Env} (P : E.User → Type 0) where
  settle-IsValid : (c : Con E) → IsValid P c → IsValid P (settle c)
  unfolding settle
  settle-IsValid c (idle a f k l alive q) = idle a f k l alive q
  settle-IsValid c (attached bev b a e f alive q) = attached bev b a e f alive q

  module _ (U : Handlers E) (u : Respects P U) where
    -- Any call at all, made where it can be made, returns with no fault, and leaves the object in
    -- one of its two phases.
    call_method-IsValid :
        (m : Method E) (c : Con E)
        → IsValid P c
        → Allowed m c
        → Safe (IsValidResult P) (call_method U m c)
    unfolding call_method
    call_method-IsValid call_disconnect c v h =
        Safe->>= (disconnect U c) _ (disconnect-IsValid P U u c v) (λ d w. safe (d, true) refl w)
    call_method-IsValid (call_send_pack body len) c v h =
        Guarded-IsValid P U u _ c v (send_pack-Guarded P U c body len)
    call_method-IsValid (call_send_pack_string msg) c v h =
        Guarded-IsValid P U u _ c v
          (unfold send_pack_string in send_pack-Guarded P U c (some msg) (length msg % 2 ^ 32))
    call_method-IsValid (call_send_data_pack msg) c v h =
        Guarded-IsValid P U u _ c v (send_data_pack-Guarded P U c msg)
    call_method-IsValid (call_send_data_raw body len) c v h =
        Guarded-IsValid P U u _ c v (send_data_raw-Guarded P U c body len)
    call_method-IsValid (call_setwatermark events low high) c v h =
        Safe->>= (setwatermark events low high c) _ (setwatermark-IsValid P U u events low high c v)
          (λ d w. safe (d, true) refl w)
    call_method-IsValid (call_set_max_send_buf_size num) c v h =
        safe (set_max_send_buf_size num c, true) refl (set_max-IsValid P U u num c v)
    call_method-IsValid (call_eventcb events) c v h =
        Safe->>= (conn_event_callback U events c) _ (event-IsValid P U u events c v h)
          (λ d w. safe (d, true) refl w)
    call_method-IsValid (call_connect_init_ip ip port t) c v h =
        connect_init_ip-IsValid P U u ip port t c v h
    call_method-IsValid (call_connect_init_addr addr t) c v h =
        connect_init_addr-IsValid P U u addr t c v h
    call_method-IsValid (call_try_reconnect t) c v h = try_reconnect-IsValid P U u t c v h

    run_method-IsValid :
        (m : Method E) (c : Con E)
        → IsValid P c
        → Allowed m c
        → Safe (IsValidResult P) (run_method U m c)
    unfolding run_method
    run_method-IsValid m c v h =
        call_method-IsValid m (settle c) (settle-IsValid c v) (settle-Allowed m c h)

  new_con-IsValid :
      (bevs : ℕ → Option (E.Bev)) (user : E.User) → P user → IsValid P (new_con E bevs user)
  unfolding new_con
  new_con-IsValid bevs user q = idle refl refl refl refl refl q

  module _ (U : Handlers E) (u : Respects P U) where
    Reach-IsValid : {c d : Con E} → IsValid P c → Reach U c d → IsValid P d
    Reach-IsValid v here = v
    Reach-IsValid v (next {d} run m h e r q) =
        elim (run_method-IsValid U u m d (Reach-IsValid v run) h) [
          | safe a p w ↦ let same : a ≡ (e, r) = ok_same p q in subst (IsValidResult P) same w
        ]

    -- From a new object, after any of the calls of `Method`, in any order, where what one call freed
    -- counts as out of memory in every later one, and with callbacks that
    -- themselves keep the object in one of its phases, any further such call returns with no fault
    -- (no bufferevent is freed twice, or touched after a call that freed it), and keeps the phases, and
    -- whatever `P` the callbacks keep of the state of the class. This is where, at each call, a new
    -- socket is not descriptor 0; events are reported before bufferevent_socket_connect returns only
    -- for an attempt that fails, and are not BEV_EVENT_CONNECTED; and that is reported only while the
    -- object is attached to a live bufferevent.
    pub Reach-Safe :
        (bevs : ℕ → Option (E.Bev)) (user : E.User) (c : Con E) (m : Method E)
        → P user
        → Reach U (new_con E bevs user) c
        → Allowed m c
        → Safe (IsValidResult P) (run_method U m c)
    Reach-Safe bevs user c m q run h =
        run_method-IsValid U u m c (Reach-IsValid (new_con-IsValid bevs user q) run) h
