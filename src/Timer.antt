-- ===== src/Timer.antt =====
-- src/timer_mgr.cc and include/timer_mgr.h: the class Timer over one libevent event. The event is
-- `none` where m_event is null; libevent's own part of it is whether it repeats, and the time that
-- it was added with while it is pending. A callback is known by a number, and `fired` is the list of
-- the callbacks that have run, the last one first: m_cb() is the last thing that TimerCB_StdBind
-- does, so the calls that a callback makes are the calls that come next.
pub mod Steps
pub mod Behaviour
pub mod Counter
pub mod Abstract
use libevent_cpp.Prelude.{
  ℕ, ◌+◌, ◌-◌, ◌*◌, ◌/◌, ◌%◌, ◌^◌, Bool, true, false, not, Option, none, some, List, [], ◌∷◌,
  if◌then◌else◌, ltb,
}
use libevent_cpp.Prelude.Outcome.{Outcome, ok, fault, Fault, ◌>>=◌}

pub data State : Type 0 where
  wait_start_timer wait_time_out : State

pub record Timeval : Type 0 where
  pub tv_sec : ℕ
  pub tv_usec : ℕ

pub record Event : Type 0 where
  pub persist : Bool
  pub pending : Option Timeval

pub record Timer : Type 0 where
  pub m_event : Option Event
  pub m_state : State
  pub m_cb : Option ℕ
  pub m_is_loop : Bool
  pub fired : List ℕ

unfoldable pub new_timer : Timer
new_timer = record {
  m_event = none;
  m_state = wait_start_timer;
  m_cb = none;
  m_is_loop = false;
  fired = [];
}

-- What libevent answers: event_new gives an event, and event_add returns 0.
pub record Reply : Type 0 where
  pub creates : Bool
  pub adds : Bool

-- `unsigned long long` milliseconds as a timeval.
pub to_timeval : ℕ → Timeval
to_timeval millisecond = record { tv_sec = millisecond / 1000; tv_usec = millisecond % 1000 * 1000 }

-- The part of StartTimer after the guard: event_add reads through the pointer, with no test for
-- null.
arm : Reply → Timeval → ℕ → Bool → Timer → Outcome (Timer × Bool)
arm r tv cb is_loop t =
    if r.creates
    then (if r.adds
        then ok (
          record t {
            m_event = some (record { persist = is_loop; pending = some tv });
            m_cb = some cb;
            m_is_loop = is_loop;
            m_state = wait_time_out;
          },
          true,
        )
        else ok (
          record t {
            m_event = some (record { persist = is_loop; pending = none });
            m_cb = some cb;
          },
          false,
        ))
    else fault Fault.null_deref

start_in : State → Reply → ℕ → ℕ → Bool → Timer → Outcome (Timer × Bool)
unfolding arm
start_in wait_time_out r millisecond cb is_loop t = ok (t, false)
start_in wait_start_timer r millisecond cb is_loop t = arm r (to_timeval millisecond) cb is_loop t

pub start_timer : Reply → ℕ → ℕ → Bool → Timer → Outcome (Timer × Bool)
unfolding start_in
start_timer r millisecond cb is_loop t = start_in t.m_state r millisecond cb is_loop t

-- `sec * 1000` is an unsigned long long.
pub start_timer_sec : Reply → ℕ → ℕ → Bool → Timer → Outcome (Timer × Bool)
start_timer_sec r sec cb is_loop t = start_timer r (sec * 1000 % 2 ^ 64) cb is_loop t

stop_in : State → Option Event → Timer → Timer × Bool
stop_in s none t = (t, false)
stop_in wait_start_timer (some e) t = (t, false)
stop_in wait_time_out (some e) t =
    (record t { m_event = some (record e { pending = none }); m_state = wait_start_timer }, true)

pub stop_timer : Timer → Timer × Bool
unfolding stop_in
stop_timer t = stop_in t.m_state t.m_event t

-- std::function, called empty, throws bad_function_call.
call_cb : Option ℕ → Timer → Outcome Timer
call_cb none t = fault Fault.uncaught_exception
call_cb (some cb) t = ok (record t { fired = cb ∷ t.fired })

pub timer_cb_std_bind : Timer → Outcome Timer
unfolding call_cb
timer_cb_std_bind t = let t' = if t.m_is_loop then t else (stop_timer t).0 in call_cb t'.m_cb t'

-- libevent's event loop: an event whose time has come is no longer pending, unless it repeats, and
-- then its callback runs. With nothing pending, nothing happens.
expire_event : Option Event → Timer → Outcome Timer
unfolding timer_cb_std_bind
expire_event none t = ok t
expire_event (some e) t = elim e.pending [
  | none ↦ ok t
  | some tv ↦
      timer_cb_std_bind
        (if e.persist then t else record t { m_event = some (record e { pending = none }) })
]

pub expire : Timer → Outcome Timer
unfolding expire_event
expire t = expire_event t.m_event t
