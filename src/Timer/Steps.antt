-- ===== src/Timer/Steps.antt =====
-- The life of a Timer: what starts, stops and fires it.
use libevent_cpp.Prelude.{
  ℕ, ◌+◌, ◌≡◌, ◌⊎◌, inl, inr, Bool, true, false, none, some, List, [], ◌∷◌, arith,
}
use libevent_cpp.Prelude.Outcome.{Outcome, ok, ◌>>=◌}
use libevent_cpp.Timer.{
  State, wait_start_timer, wait_time_out, Timeval, Event, Timer, Reply, to_timeval, start_timer,
  stop_timer, timer_cb_std_bind, expire,
}

-- The state of a Timer that waits for its time: the event is pending, repeats if the timer is a
-- loop, and there is a callback. Or nothing is pending.
pub data IsValid (t : Timer) : Type 0 where
  stopped :
      t.m_state ≡ wait_start_timer
      → (t.m_event ≡ none) ⊎ ((e : Event) × (t.m_event ≡ some e) × (e.pending ≡ none))
      → IsValid t
  waiting :
      (e : Event) (tv : Timeval) (cb : ℕ)
      → t.m_state ≡ wait_time_out
      → t.m_event ≡ some e
      → e.pending ≡ some tv
      → e.persist ≡ t.m_is_loop
      → t.m_cb ≡ some cb
      → IsValid t

pub start_timer-stopped :
    (r : Reply) (ms cb : ℕ) (is_loop : Bool) (t : Timer)
    → t.m_state ≡ wait_start_timer
    → r.creates ≡ true
    → r.adds ≡ true
    → start_timer r ms cb is_loop t
      ≡ ok (
        record t {
          m_event = some (record { persist = is_loop; pending = some (to_timeval ms) });
          m_cb = some cb;
          m_is_loop = is_loop;
          m_state = wait_time_out;
        },
        true,
      )
unfolding start_timer
start_timer-stopped r ms cb is_loop t s p q = ground arith

-- What can happen to a timer.
pub data Command : Type 0 where
  start : Reply → ℕ → ℕ → Bool → Command
  stop : Command
  expires : Command

abbrev pub step : Command → Timer → Outcome Timer
step (start r ms cb is_loop) t = start_timer r ms cb is_loop t >>= λ s. ok s.0
step stop t = ok (stop_timer t).0
step expires t = expire t

unfoldable pub run : List Command → Timer → Outcome Timer
run [] t = ok t
run (c ∷ cs) t = step c t >>= λ t'. run cs t'

-- event_new gives an event; the source does not test for null.
abbrev pub Creates : Command → Type 0
Creates (start r ms cb is_loop) = r.creates ≡ true
Creates stop = Unit {0}
Creates expires = Unit {0}

abbrev pub AllCreate : List Command → Type 0
AllCreate [] = Unit {0}
AllCreate (c ∷ cs) = Creates c × AllCreate cs

-- How many times a command can arm a timer that fires once.
abbrev pub arms : Command → ℕ
arms (start r ms cb is_loop) = 1
arms stop = 0
arms expires = 0

abbrev pub starts : List Command → ℕ
starts [] = 0
starts (c ∷ cs) = arms c + starts cs

abbrev pub IsOnce : Command → Type 0
IsOnce (start r ms cb is_loop) = is_loop ≡ false
IsOnce stop = Unit {0}
IsOnce expires = Unit {0}

abbrev pub AllOnce : List Command → Type 0
AllOnce [] = Unit {0}
AllOnce (c ∷ cs) = IsOnce c × AllOnce cs

abbrev pub armed : State → ℕ
armed wait_start_timer = 0
armed wait_time_out = 1

-- An expiry of a timer that waits once: the callback runs with the timer stopped already, so that
-- it may start it again.
pub expire_once :
    (t : Timer) (e : Event) (tv : Timeval) (cb : ℕ)
    → t.m_state ≡ wait_time_out
    → t.m_event ≡ some e
    → e.pending ≡ some tv
    → e.persist ≡ t.m_is_loop
    → t.m_cb ≡ some cb
    → t.m_is_loop ≡ false
    → expire t
      ≡ ok (record t {
        m_event = some (record e { pending = none });
        m_state = wait_start_timer;
        fired = cb ∷ t.fired;
      })
unfolding expire timer_cb_std_bind stop_timer
expire_once t e tv cb s p q w c l = ground arith

pub expire_loop :
    (t : Timer) (e : Event) (tv : Timeval) (cb : ℕ)
    → t.m_state ≡ wait_time_out
    → t.m_event ≡ some e
    → e.pending ≡ some tv
    → e.persist ≡ t.m_is_loop
    → t.m_cb ≡ some cb
    → t.m_is_loop ≡ true
    → expire t ≡ ok (record t { fired = cb ∷ t.fired })
unfolding expire timer_cb_std_bind
expire_loop t e tv cb s p q w c l = ground arith

pub expire_stopped :
    (t : Timer)
    → (t.m_event ≡ none) ⊎ ((e : Event) × (t.m_event ≡ some e) × (e.pending ≡ none))
    → expire t ≡ ok t
unfolding expire
expire_stopped t (inl h) = ground arith
expire_stopped t (inr (e, p, q)) = ground arith
