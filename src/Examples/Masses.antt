-- ===== src/Examples/Masses.antt =====
-- The client of the mass test, from its construction on.
use libevent_cpp.Prelude.{ℕ, ◌≡◌, refl, true, false, Option, none, some, [], ◌∷◌, inl, inr}
use libevent_cpp.Prelude.Outcome.{ok, Safe}
use libevent_cpp.Prelude.Int.{pos}
use libevent_cpp.Bytes.{auto_hton16}
use libevent_cpp.Con.{Con, new_con, update, put, set_addr_ip, set_socket_info, conn_event_callback}
use libevent_cpp.Con.Client.{Attempt, connect_init_ip, connect_by_addr, early, take_socket}
use libevent_cpp.Con.Methods.{IsAttempt}
use libevent_cpp.Timer.{Reply, new_timer, wait_time_out, to_timeval}
use libevent_cpp.Timer.Steps.{start_timer-stopped}
use libevent_cpp.Trials.Flood.{Member}
use libevent_cpp.Trials.Mass.{s_connect, Mass, start_checked, mass, mass_on_connected}
use libevent_cpp.Trials.Mass.Invariant.{IsGiving}
use libevent_cpp.Trials.Mass.History.{
  connect_init, conn_event, timer_event, new_mass, happen, Lived, born, after,
}
use libevent_cpp.Trials.Mass.Running.{Runs, happen-Lived}
use libevent_cpp.Examples.World.{Buffers, world, empty, server_addr}

abbrev own : Member Mass Mass
own = record { get = λ u. u; set = λ a u. a; get-set = λ a u. refl }

abbrev pub gives : Reply
gives = record { creates = true; adds = true }

pub gives-IsGiving : IsGiving gives
gives-IsGiving = record { creates = refl; adds = refl }

abbrev tries : Attempt (world Mass)
tries = record {
  socket_fd = pos 5;
  new_bev = some (1, empty);
  early_events = none;
  connects = true;
}

tries-IsAttempt : IsAttempt tries
tries-IsAttempt = record { nonzero = refl; nonneg = refl; quiet = inl refl }

abbrev pub no_bevs : ℕ → Option Buffers
no_bevs p = none

abbrev joining : Con (world Mass)
joining = record {
  m_buf_e = some 1;
  m_addr = server_addr;
  m_fd = pos 5;
  m_msbs = 1048576;
  m_is_connect = false;
  m_no_ev_cb_log = false;
  m_rev_pack_len = 0;
  m_is_raw_read_cb = false;
  is_deleted = false;
  bevs = update no_bevs 1 (some empty);
  dying = λ p. none;
  user = new_mass;
}

-- rand() gives 1500 each time.
told :
    happen own gives 1500
      (connect_init (some (49 ∷ [])) 8080 tries)
      (new_con (world Mass) no_bevs new_mass)
    ≡ ok joining
unfolding happen connect_init_ip connect_by_addr early take_socket set_addr_ip set_socket_info put
    auto_hton16 new_con
told = refl

abbrev joined : Con (world Mass)
joined = record joining {
  m_is_connect = true;
  user = record {
    m_cnt = 0;
    m_state = s_connect;
    m_timer = record {
      m_event = some (record { persist = false; pending = some (to_timeval 1500) });
      m_state = wait_time_out;
      m_cb = some 1;
      m_is_loop = false;
      fired = [];
    };
    total_rev_cnt = 0;
    total_recon_cnt = 0;
  };
}

is_joined : happen own gives 1500 (conn_event 128) joining ≡ ok joined
unfolding happen conn_event_callback mass mass_on_connected start_checked new_mass new_timer
is_joined = rw (start_timer-stopped gives 1500 1 false new_timer refl refl refl) refl

joined-Lived : Lived own joined
joined-Lived =
    after joining joined gives 1500 (conn_event 128)
      (after (new_con (world Mass) no_bevs new_mass) joining gives 1500
        (connect_init (some (49 ∷ [])) 8080 tries) (born no_bevs new_mass refl) gives-IsGiving
        (inr tries-IsAttempt) told)
      gives-IsGiving (inr (1, (empty, refl, refl, refl, refl, tt))) is_joined

-- The timer's time comes, and the client sends its first number.
happen-Lived_example :
    Safe
      (λ d. Lived own d × (Runs joined.user → Runs d.user))
      (happen own gives 1500 (timer_event 50 tries) joined)
happen-Lived_example =
    happen-Lived own gives 1500 (timer_event 50 tries) joined joined-Lived gives-IsGiving
      (inr tries-IsAttempt)
