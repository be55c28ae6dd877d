-- ===== src/Timer/Abstract.antt =====
-- What a Timer promises its user: it is idle, or it has one alarm that is due. Nothing is said of
-- libevent's event, or of which members hold what.
use libevent_cpp.Prelude.{
  ℕ, ◌+◌, ◌*◌, ◌≡◌, refl, ap, ◌∙◌, inl, inr, Bool, true, false, Option, none, some, List, [], ◌∷◌,
  ◌++◌, arith, if◌then◌else◌, Bool-cases, Option-cases, ◌⊎◌,
}
use libevent_cpp.Prelude.Outcome.{Outcome, ok, out_of_fuel, fault, Fault, ◌>>=◌}
use libevent_cpp.Timer.{
  wait_start_timer, wait_time_out, Event, Timeval, Timer, Reply, to_timeval, start_timer,
  stop_timer, expire,
}
use libevent_cpp.Timer.Steps.{
  IsValid, stopped, waiting, Command, start, stop, expires, expire_once, expire_loop,
  expire_stopped,
}

-- In how many microseconds it is due, what it calls, and whether it is then due again.
pub record Alarm : Type 0 where
  pub due : ℕ
  pub call : ℕ
  pub again : Bool

-- The alarm, and what has been called, the last call first.
pub record Clock : Type 0 where
  pub alarm : Option Alarm
  pub called : List ℕ

-- One command, with the answer of a call; `expires` is none.
abbrev promised_start : Reply → ℕ → ℕ → Bool → Option Alarm → Clock → Outcome (Clock × List Bool)
promised_start r ms cb is_loop (some a) c = ok (c, false ∷ [])
promised_start r ms cb is_loop none c =
    if r.creates
    then (if r.adds
        then ok (
          record c { alarm = some (record { due = ms * 1000; call = cb; again = is_loop }) },
          true ∷ [],
        )
        else ok (c, false ∷ []))
    else fault Fault.null_deref

abbrev promised_stop : Option Alarm → Clock → Clock × List Bool
promised_stop none c = (c, false ∷ [])
promised_stop (some a) c = (record c { alarm = none }, true ∷ [])

abbrev promised_time : Option Alarm → Clock → Clock
promised_time none c = c
promised_time (some a) c = record {
  alarm = if a.again then some a else none;
  called = a.call ∷ c.called;
}

abbrev promised_step : Command → Clock → Outcome (Clock × List Bool)
promised_step (start r ms cb is_loop) c = promised_start r ms cb is_loop c.alarm c
promised_step stop c = ok (promised_stop c.alarm c)
promised_step expires c = ok (promised_time c.alarm c, [])

abbrev pub promised : List Command → Clock → Outcome (Clock × List Bool)
promised [] c = ok (c, [])
promised (x ∷ xs) c = promised_step x c >>= λ d. promised xs d.0 >>= λ e. ok (e.0, d.1 ++ e.1)

-- The same of the code: the answers of its calls are kept.
abbrev answer_step : Command → Timer → Outcome (Timer × List Bool)
answer_step (start r ms cb is_loop) t = start_timer r ms cb is_loop t >>= λ s. ok (s.0, s.1 ∷ [])
answer_step stop t = let s = stop_timer t in ok (s.0, s.1 ∷ [])
answer_step expires t = expire t >>= λ t'. ok (t', [])

abbrev pub answers : List Command → Timer → Outcome (Timer × List Bool)
answers [] t = ok (t, [])
answers (x ∷ xs) t = answer_step x t >>= λ d. answers xs d.0 >>= λ e. ok (e.0, d.1 ++ e.1)

-- What of a Timer its user can see.
alarm_of : Option Event → Option ℕ → Option Alarm
alarm_of none cb = none
alarm_of (some e) none = none
alarm_of (some e) (some cb) = elim e.pending [
  | none ↦ none
  | some tv ↦ some (record { due = tv.tv_sec * 1000000 + tv.tv_usec; call = cb; again = e.persist })
]

unfoldable pub view : Timer → Clock
unfolding alarm_of
view t = record { alarm = alarm_of t.m_event t.m_cb; called = t.fired }

pub shown : Outcome (Timer × List Bool) → Outcome (Clock × List Bool)
unfolding view
shown r = r >>= λ d. ok (view d.0, d.1)

-- A command that went as promised.
data Kept (r : Outcome (Timer × List Bool)) (p : Outcome (Clock × List Bool)) : Type 0 where
  returns :
      (t : Timer) (bs : List Bool) → r ≡ ok (t, bs) → p ≡ ok (view t, bs) → IsValid t → Kept r p
  faults : (f : Fault) → r ≡ fault f → p ≡ fault f → Kept r p

-- A timer that does not wait shows no alarm.
view-stopped :
    (t : Timer)
    → (t.m_event ≡ none) ⊎ ((e : Event) × (t.m_event ≡ some e) × (e.pending ≡ none))
    → view t ≡ record { alarm = none; called = t.fired }
unfolding view alarm_of
view-stopped t (inl n) = ground (arith, n)
view-stopped t (inr (e, p, q)) = elim (Option-cases t.m_cb) [
  | inl c ↦ rw (p, c) refl
  | inr (cb, c) ↦ rw (p, c, q) refl
]

abbrev set_for : Event → Timeval → ℕ → Alarm
set_for e tv cb = record { due = tv.tv_sec * 1000000 + tv.tv_usec; call = cb; again = e.persist }

-- One that waits shows what it was started with.
view-waiting :
    (t : Timer) (e : Event) (tv : Timeval) (cb : ℕ)
    → t.m_event ≡ some e
    → e.pending ≡ some tv
    → t.m_cb ≡ some cb
    → view t ≡ record { alarm = some (set_for e tv cb); called = t.fired }
unfolding view alarm_of
view-waiting t e tv cb p q c = rw (p, c, q) refl

whole_time : (ms : ℕ) → (to_timeval ms).tv_sec * 1000000 + (to_timeval ms).tv_usec ≡ ms * 1000
unfolding to_timeval
whole_time ms = omega arith

start-Kept :
    (r : Reply) (ms cb : ℕ) (is_loop : Bool) (t : Timer)
    → IsValid t
    → Kept (answer_step (start r ms cb is_loop) t) (promised_step (start r ms cb is_loop) (view t))
unfolding start_timer
start-Kept r ms cb is_loop t (waiting e tv cb' s p q w c) =
    returns t (false ∷ []) (ground arith) (rw (view-waiting t e tv cb' p q c) refl)
      (waiting e tv cb' s p q w c)
start-Kept r ms cb is_loop t (stopped s p) = elim (Bool-cases r.creates) [
  | inr n ↦ faults Fault.null_deref (ground (arith, s, n)) (rw (view-stopped t p, n) refl)
  | inl h ↦ elim (Bool-cases r.adds) [
    | inl a ↦
        let e : Event = record { persist = is_loop; pending = some (to_timeval ms) } in
        let t' : Timer = record t {
          m_event = some e;
          m_cb = some cb;
          m_is_loop = is_loop;
          m_state = wait_time_out;
        } in
        returns t' (true ∷ []) (ground (arith, s, h, a))
          (rw
            (
              view-stopped t p,
              h,
              a,
              view-waiting t' e (to_timeval ms) cb refl refl refl,
              whole_time ms,
            )
            refl)
          (waiting e (to_timeval ms) cb refl refl refl refl refl)
    | inr a ↦
        let e : Event = record { persist = is_loop; pending = none } in
        let t' : Timer = record t { m_event = some e; m_cb = some cb } in
        returns t' (false ∷ []) (ground (arith, s, h, a))
          (rw (view-stopped t p, h, a, view-stopped t' (inr (e, refl, refl))) refl)
          (stopped s (inr (e, refl, refl)))
  ]
]

stop-Kept : (t : Timer) → IsValid t → Kept (answer_step stop t) (promised_step stop (view t))
unfolding stop_timer
stop-Kept t (stopped s p) =
    returns t (false ∷ []) (ground arith) (rw (view-stopped t p) refl) (stopped s p)
stop-Kept t (waiting e tv cb s p q w c) =
    let e' : Event = record e { pending = none } in
    let t' : Timer = record t { m_event = some e'; m_state = wait_start_timer } in
    let v : IsValid t' = stopped refl (inr (e', refl, refl)) in
    returns t' (true ∷ []) (ground arith)
      (rw (view-waiting t e tv cb p q c, view-stopped t' (inr (e', refl, refl))) refl) v

expires-Kept :
    (t : Timer) → IsValid t → Kept (answer_step expires t) (promised_step expires (view t))
expires-Kept t (stopped s p) =
    returns t [] (rw (expire_stopped t p) refl) (rw (view-stopped t p) refl) (stopped s p)
expires-Kept t (waiting e tv cb s p q w c) = elim (Bool-cases t.m_is_loop) [
  | inl l ↦
      let t' : Timer = record t { fired = cb ∷ t.fired } in
      returns t' [] (rw (expire_loop t e tv cb s p q w c l) refl)
        (rw (view-waiting t e tv cb p q c, view-waiting t' e tv cb p q c, w, l) refl)
        (waiting e tv cb s p q w c)
  | inr l ↦
      let e' : Event = record e { pending = none } in
      let t' : Timer = record t {
        m_event = some e';
        m_state = wait_start_timer;
        fired = cb ∷ t.fired;
      } in
      returns t' [] (rw (expire_once t e tv cb s p q w c l) refl)
        (rw (view-waiting t e tv cb p q c, view-stopped t' (inr (e', refl, refl)), w, l) refl)
        (stopped refl (inr (e', refl, refl)))
]

step-Kept :
    (x : Command) (t : Timer) → IsValid t → Kept (answer_step x t) (promised_step x (view t))
step-Kept (start r ms cb is_loop) t v = start-Kept r ms cb is_loop t v
step-Kept stop t v = stop-Kept t v
step-Kept expires t v = expires-Kept t v

shown_none : (t : Timer) → shown (ok (t, [])) ≡ ok (view t, [])
unfolding shown
shown_none t = refl

shown_fault : (f : Fault) → shown (fault f) ≡ fault f
unfolding shown
shown_fault f = refl

shown-more :
    (bs : List Bool) (r : Outcome (Timer × List Bool))
    → shown (r >>= λ e. ok (e.0, bs ++ e.1)) ≡ (shown r >>= λ e. ok (e.0, bs ++ e.1))
unfolding shown
shown-more bs out_of_fuel = refl
shown-more bs (fault f) = refl
shown-more bs (ok x) = refl

-- From a valid timer, whatever sequence of starts, stops and expiries comes, and whatever libevent
-- answers to them, the answers of the calls, the callbacks that have run, the alarm that is due at
-- the end (its whole time, its callback, and whether it repeats), and a null pointer read where
-- event_new gives no event, are as promised.
pub answers-promised :
    (xs : List Command) (t : Timer) → IsValid t → shown (answers xs t) ≡ promised xs (view t)
answers-promised [] t v = shown_none t
answers-promised (x ∷ xs) t v = elim (step-Kept x t v) [
  | faults f e p ↦ rw (e, p) (shown_fault f)
  | returns t' bs e p v' ↦
      rw (e, p)
        (shown-more bs (answers xs t')
          ∙ ap (λ o. o >>= λ e. ok (e.0, bs ++ e.1)) (answers-promised xs t' v'))
]
