-- ===== src/Examples/Life.antt =====
-- A client connection, from its construction on.
use libevent_cpp.Prelude.{ℕ, ◌≡◌, refl, true, false, Option, none, some, [], ◌∷◌, inl, inr}
use libevent_cpp.Prelude.Int.{pos}
use libevent_cpp.Prelude.Outcome.{ok, Safe, safe}
use libevent_cpp.Bytes.{auto_hton16}
use libevent_cpp.Con.{
  settle, Con, new_con, update, put, set_addr_ip, set_socket_info, conn_event_callback,
}
use libevent_cpp.Con.Client.{Attempt, connect_init_ip, connect_by_addr, early, take_socket}
use libevent_cpp.Con.Valid.{Anything, Respects, IsValidResult}
use libevent_cpp.Con.Methods.{
  IsAttempt, call_method, run_method, call_connect_init_ip, call_eventcb, call_send_pack_string,
}
use libevent_cpp.Con.Methods.Safety.{Reach, here, next, Reach-Safe}
use libevent_cpp.Examples.World.{Buffers, mail, keeper, server_addr, empty}

keeper-Respects : Respects Anything keeper
keeper-Respects = record {
  connected_lem = λ c v. safe c refl v;
  error_lem = λ e c v. safe c refl v;
  disconnected_lem = λ c v. safe c refl v;
}

abbrev attempt : Attempt mail
attempt = record {
  socket_fd = pos 5;
  new_bev = some (1, empty);
  early_events = none;
  connects = true;
}

attempt-IsAttempt : IsAttempt attempt
attempt-IsAttempt = record { nonzero = refl; nonneg = refl; quiet = inl refl }

abbrev no_heap : ℕ → Option Buffers
no_heap p = none

abbrev connecting : Con mail
connecting = record {
  m_buf_e = some 1;
  m_addr = server_addr;
  m_fd = pos 5;
  m_msbs = 1048576;
  m_is_connect = false;
  m_no_ev_cb_log = false;
  m_rev_pack_len = 0;
  m_is_raw_read_cb = false;
  is_deleted = false;
  bevs = update no_heap 1 (some empty);
  dying = λ p. none;
  user = [];
}

connects_at_all :
    run_method keeper (call_connect_init_ip (some (49 ∷ [])) 8080 attempt) (new_con mail no_heap [])
    ≡ ok (connecting, true)
unfolding run_method call_method settle connect_init_ip connect_by_addr early take_socket
    set_addr_ip set_socket_info put auto_hton16 new_con
connects_at_all = refl

is_up :
    run_method keeper (call_eventcb 128) connecting
    ≡ ok (record connecting { m_is_connect = true }, true)
unfolding run_method call_method settle conn_event_callback
is_up = refl

lived : Reach keeper (new_con mail no_heap []) (record connecting { m_is_connect = true })
lived =
    next
      (next here (call_connect_init_ip (some (49 ∷ [])) 8080 attempt) (inr attempt-IsAttempt)
        connecting true connects_at_all)
      (call_eventcb 128) (inr (1, (empty, refl, refl, refl, refl, tt)))
      (record connecting { m_is_connect = true }) true is_up

Reach-Safe_example :
    Safe (IsValidResult Anything) (
      run_method keeper
        (call_send_pack_string (7 ∷ []))
        (record connecting { m_is_connect = true }))
Reach-Safe_example =
    Reach-Safe Anything keeper keeper-Respects no_heap []
      (record connecting { m_is_connect = true }) (call_send_pack_string (7 ∷ [])) tt lived tt
