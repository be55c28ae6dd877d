-- ===== src/Examples/Timers.antt =====
-- Timers that are started, stopped and expire.
use libevent_cpp.Prelude.{◌≡◌, refl, true, false, some, List, [], ◌∷◌}
use libevent_cpp.Prelude.Outcome.{ok}
use libevent_cpp.Timer.{Timer, Timeval, wait_time_out, Reply}
use libevent_cpp.Timer.Steps.{IsValid, waiting, Command, start, stop, expires}
use libevent_cpp.Timer.Abstract.{answers, shown, view, answers-promised}

abbrev works : Reply
works = record { creates = true; adds = true }

abbrev tv : Timeval
tv = record { tv_sec = 1; tv_usec = 500000 }

abbrev ticking : Timer
ticking = record {
  m_event = some (record { persist = false; pending = some tv });
  m_state = wait_time_out;
  m_cb = some 3;
  m_is_loop = false;
  fired = [];
}

ticking_IsValid : IsValid ticking
ticking_IsValid =
    waiting (record { persist = false; pending = some tv }) tv 3 refl refl refl refl refl

-- One that waits: a start is refused, it expires, starts as a loop, expires twice, and is stopped.
abbrev ticks : List Command
ticks =
    start works 900 4 true
    ∷ expires
    ∷ start works 2500 5 true
    ∷ expires
    ∷ expires
    ∷ stop
    ∷ start works 70 6 false
    ∷ []

answers-promised_example :
    shown (answers ticks ticking)
    ≡ ok (
      record {
        alarm = some (record { due = 70000; call = 6; again = false });
        called = 5 ∷ 5 ∷ 3 ∷ [];
      },
      false ∷ true ∷ true ∷ true ∷ [],
    )
unfolding view
answers-promised_example = answers-promised ticks ticking ticking_IsValid
