-- ===== src/Timer/Behaviour.antt =====
-- What starting, stopping and expiring a Timer come to, on every branch.
use libevent_cpp.Prelude.{
  ℕ, ◌+◌, ◌*◌, ◌%◌, ◌^◌, ◌<◌, ◌≡◌, refl, ◌⊎◌, inl, inr, Bool, true, false, none, some, List, [],
  ◌∷◌, arith, if◌then◌else◌, Bool-cases,
}
use libevent_cpp.Prelude.Outcome.{ok}
use libevent_cpp.Timer.{
  State, wait_start_timer, wait_time_out, Timeval, Event, Timer, Reply, to_timeval, start_timer,
  start_timer_sec, stop_timer, expire,
}
use libevent_cpp.Timer.Steps.{
  IsValid, stopped, waiting, Command, start, stop, expires, run, expire_once, expire_loop,
  expire_stopped,
}

-- When its time comes, a valid timer that waits runs the callback that it was started with, and is
-- stopped unless it is a loop; a timer that does not wait is left as it is.
pub expire_cases :
    (t : Timer)
    → IsValid t
    → ((t.m_state ≡ wait_start_timer) × (expire t ≡ ok t))
      ⊎ ((cb : ℕ) × (t' : Timer) × (t.m_state ≡ wait_time_out)
          × (t.m_cb ≡ some cb)
          × (expire t ≡ ok t')
          × (t'.fired ≡ cb ∷ t.fired)
          × (t'.m_state ≡ (if t.m_is_loop then wait_time_out else wait_start_timer))
          × IsValid t')
expire_cases t (stopped s p) = inl (s, expire_stopped t p)
expire_cases t (waiting e tv cb s p q w c) = inr (elim (Bool-cases t.m_is_loop) [
  | inl l ↦ (
    cb,
    record t { fired = cb ∷ t.fired },
    s,
    c,
    expire_loop t e tv cb s p q w c l,
    refl,
    rw l s,
    waiting e tv cb s p q w c,
  )
  | inr l ↦ (
    cb,
    record t {
      m_event = some (record e { pending = none });
      m_state = wait_start_timer;
      fired = cb ∷ t.fired;
    },
    s,
    c,
    expire_once t e tv cb s p q w c l,
    refl,
    rw l refl,
    stopped refl (inr (record e { pending = none }, refl, refl)),
  )
])

-- StartTimer while the timer waits is refused and changes nothing; otherwise, where event_new gives
-- an event, it arms the timer with the whole time that was asked for, if libevent takes the event,
-- and else leaves it stopped.
pub start_timer_cases :
    (r : Reply) (ms cb : ℕ) (is_loop : Bool) (t : Timer)
    → r.creates ≡ true
    → ((t.m_state ≡ wait_time_out) × (start_timer r ms cb is_loop t ≡ ok (t, false)))
      ⊎ ((t' : Timer) × (e : Event) × (tv : Timeval) × (t.m_state ≡ wait_start_timer)
          × (start_timer r ms cb is_loop t ≡ ok (t', r.adds))
          × (t'.m_event ≡ some e)
          × (t'.m_cb ≡ some cb)
          × (e.persist ≡ is_loop)
          × (t'.fired ≡ t.fired)
          × (e.pending ≡ (if r.adds then some tv else none))
          × (t'.m_state ≡ (if r.adds then wait_time_out else wait_start_timer))
          × (tv.tv_sec * 1000000 + tv.tv_usec ≡ ms * 1000)
          × (tv.tv_usec < 1000000))
unfolding start_timer to_timeval
start_timer_cases r ms cb is_loop t h = go t.m_state refl
  where
    e : Event
    e = record { persist = is_loop; pending = if r.adds then some (to_timeval ms) else none }

    t' : Timer
    t' = record t {
      m_event = some e;
      m_cb = some cb;
      m_is_loop = if r.adds then is_loop else t.m_is_loop;
      m_state = if r.adds then wait_time_out else wait_start_timer;
    }

    go :
        (s : State)
        → t.m_state ≡ s
        → ((t.m_state ≡ wait_time_out) × (start_timer r ms cb is_loop t ≡ ok (t, false)))
          ⊎ ((t' : Timer) × (e : Event) × (tv : Timeval) × (t.m_state ≡ wait_start_timer)
              × (start_timer r ms cb is_loop t ≡ ok (t', r.adds))
              × (t'.m_event ≡ some e)
              × (t'.m_cb ≡ some cb)
              × (e.persist ≡ is_loop)
              × (t'.fired ≡ t.fired)
              × (e.pending ≡ (if r.adds then some tv else none))
              × (t'.m_state ≡ (if r.adds then wait_time_out else wait_start_timer))
              × (tv.tv_sec * 1000000 + tv.tv_usec ≡ ms * 1000)
              × (tv.tv_usec < 1000000))
    go wait_time_out s = inl (s, ground arith)
    go wait_start_timer s = inr (
      t',
      e,
      to_timeval ms,
      s,
      ground arith,
      refl,
      refl,
      refl,
      refl,
      refl,
      refl,
      omega arith,
      omega arith,
    )

-- StopTimer of a valid timer reports whether it waited, and it does not wait afterwards; of one that
-- did not wait it changes nothing.
pub stop_timer_cases :
    (t : Timer)
    → IsValid t
    → ((t.m_state ≡ wait_start_timer) × (stop_timer t ≡ (t, false)))
      ⊎ ((t' : Timer) × (t.m_state ≡ wait_time_out)
          × (stop_timer t ≡ (t', true))
          × (t'.m_state ≡ wait_start_timer)
          × (t'.fired ≡ t.fired)
          × IsValid t')
unfolding stop_timer
stop_timer_cases t (stopped s p) = inl (s, ground arith)
stop_timer_cases t (waiting e tv cb s p q w c) = inr (
  record t { m_event = some (record e { pending = none }); m_state = wait_start_timer },
  s,
  ground arith,
  refl,
  refl,
  stopped refl (inr (record e { pending = none }, refl, refl)),
)

-- Whole seconds reach the timeval as they are, as long as their milliseconds fit 64 bits.
start_timer_sec-eq-start_timer :
    (r : Reply) (sec cb : ℕ) (is_loop : Bool) (t : Timer)
    → sec * 1000 < 2 ^ 64
    → (start_timer_sec r sec cb is_loop t ≡ start_timer r (sec * 1000) cb is_loop t)
      × (to_timeval (sec * 1000) ≡ record { tv_sec = sec; tv_usec = 0 })
unfolding start_timer_sec to_timeval
start_timer_sec-eq-start_timer r sec cb is_loop t h =
    let e : sec * 1000 % 2 ^ 64 ≡ sec * 1000 = omega arith in (rw e, ground arith)

abbrev pub NoStart : List Command → Type 0
NoStart [] = Unit {0}
NoStart (start r ms cb is_loop ∷ cs) = ⊥
NoStart (stop ∷ cs) = NoStart cs
NoStart (expires ∷ cs) = NoStart cs

-- Until it is started again, a valid timer that does not wait does nothing: no expiry runs its
-- callback, and no StopTimer changes it.
stopped_silent :
    (cs : List Command) (t : Timer)
    → IsValid t
    → t.m_state ≡ wait_start_timer
    → NoStart cs
    → run cs t ≡ ok t
unfolding run stop_timer
stopped_silent [] t v s h = refl
stopped_silent (start r ms cb is_loop ∷ cs) t v s h = absurd h
stopped_silent (stop ∷ cs) t (waiting e tv cb s' p q w c) s h = cc
stopped_silent (expires ∷ cs) t (waiting e tv cb s' p q w c) s h = cc
stopped_silent (stop ∷ cs) t (stopped s' p) s h =
    let same : (stop_timer t).0 ≡ t = ground arith in
    rw same (stopped_silent cs t (stopped s' p) s h)
stopped_silent (expires ∷ cs) t (stopped s' p) s h =
    rw (expire_stopped t p) (stopped_silent cs t (stopped s' p) s h)
