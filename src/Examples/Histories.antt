-- ===== src/Examples/Histories.antt =====
-- A server of the default class, which accepts a connection and gets a part of a message.
use libevent_cpp.Prelude.{ℕ, ◌≡◌, ◌⊎◌, refl, none, some, [], ◌∷◌, arith, false}
use libevent_cpp.Prelude.Int.{pos, is_zero}
use libevent_cpp.Prelude.Outcome.{Outcome, ok, fault, out_of_fuel}
use libevent_cpp.Con.{Con, new_con, put, set_socket_info, set_addr, set_is_connect}
use libevent_cpp.ConMgr.{
  new_con_mgr, find_conn, lookup, assign, create_connect_for_listener, svr_id,
}
use libevent_cpp.Listener.{accept_init, svr_handlers, listener_cb, no_use_listener_connector}
use libevent_cpp.Listener.System.{Server, Event, accepted, arrived, ticked, step}
use libevent_cpp.Listener.System.Handled.{no_use-IsClass}
use libevent_cpp.Listener.System.Safety.{Inv}
use libevent_cpp.Listener.System.History.{
  History, begins, goes_on, new_server, History-safe, ticked_open,
}
use libevent_cpp.Examples.World.{empty}
use libevent_cpp.Examples.Server.{office, itself, door, two_made}

abbrev started : Server office
started = new_server door 0

abbrev socket : Event office
socket = accepted 100 9 (pos 7) none 1 empty two_made

abbrev part : Event office
part = arrived 100 (0 ∷ 0 ∷ 0 ∷ 1 ∷ [])

abbrev taken : Outcome (Server office) → Server office
taken out_of_fuel = started
taken (fault why) = started
taken (ok s) = s

abbrev one_open : Server office
one_open = taken (step itself no_use_listener_connector socket started)

opens : step itself no_use_listener_connector socket started ≡ ok one_open
unfolding step listener_cb accept_init new_con put set_socket_info set_addr set_is_connect
    svr_handlers no_use_listener_connector new_con_mgr create_connect_for_listener svr_id lookup
    assign
opens = refl

one-History : History itself no_use_listener_connector (no_use-IsClass itself) one_open
unfolding new_con_mgr find_conn lookup
one-History = goes_on socket one_open (begins door 0) (refl, refl, refl, refl) opens

History-safe_example :
    (s : Server office) × (step itself no_use_listener_connector part one_open ≡ ok s)
    × Inv itself s
History-safe_example =
    History-safe itself no_use_listener_connector (no_use-IsClass itself) part one_open one-History
      (omega arith, omega arith)

ticked_open_example :
    (s : Server office) × (step itself no_use_listener_connector ticked one_open ≡ ok s)
    × ((s.cons 100 ≡ none)
        ⊎ ((c : Con office) × (id : ℕ) × (s.cons 100 ≡ some c)
            × (is_zero c.m_fd ≡ false)
            × (s.mgr.objs 100 ≡ some id)
            × (find_conn id s.mgr ≡ some 100)))
ticked_open_example =
    ticked_open itself no_use_listener_connector (no_use-IsClass itself) one_open 100 one-History
