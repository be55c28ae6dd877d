-- ===== src/Trials/Mass/Invariant.antt =====
-- test/client_prj/main.cc, MyConnectClient: what its timer and its state have to do with each other.
use libevent_cpp.Prelude.{ℕ, ◌%◌, ◌≡◌, ◌≢◌, refl, inl, inr, true, false, none, some, ◌∷◌}
use libevent_cpp.Prelude.Outcome.{ok, Safe, safe}
use libevent_cpp.Env.{Env}
use libevent_cpp.Con.{Con}
use libevent_cpp.Con.Valid.{IsValid, idle, attached}
use libevent_cpp.Timer
use libevent_cpp.Timer.{
  Timer, Reply, wait_start_timer, wait_time_out, Timeval, Event, to_timeval, start_timer,
  stop_timer, expire,
}
use libevent_cpp.Timer.Steps
use libevent_cpp.Timer.Steps.{stopped, waiting, start_timer-stopped, expire_once}
use libevent_cpp.Timer.Behaviour.{stop_timer_cases}
use libevent_cpp.Trials.Mass.{s_start, Mass, rand_send_interval, on_timer_id, start_checked}

-- event_new gives an event, and event_add takes it.
pub record IsGiving (reply : Reply) : Type 0 where
  pub creates : reply.creates ≡ true
  pub adds : reply.adds ≡ true

-- A timer that fires once.
pub record IsOnce (t : Timer) : Type 0 where
  pub valid : Steps.IsValid t
  pub once : t.m_is_loop ≡ false

-- The client has left S_Start, and its timer is in the state `w`.
pub record IsGoing (w : Timer.State) (k : Mass) : Type 0 where
  pub not_start : k.m_state ≢ s_start
  pub timer : IsOnce k.m_timer
  pub runs : k.m_timer.m_state ≡ w

-- The timer was never started, or it runs and the client has left S_Start.
pub data IsSound (k : Mass) : Type 0 where
  fresh : k.m_timer.m_state ≡ wait_start_timer → IsOnce k.m_timer → IsSound k
  going : IsGoing wait_time_out k → IsSound k

pub start_checked_lem :
    (reply : Reply) (rand : ℕ) (t : Timer)
    → IsGiving reply
    → t.m_state ≡ wait_start_timer
    → Safe (λ t'. IsOnce t' × (t'.m_state ≡ wait_time_out)) (start_checked reply rand t)
unfolding start_checked
start_checked_lem reply rand t g s =
    let ms = rand % rand_send_interval in
    let e : Event = record { persist = false; pending = some (to_timeval ms) } in
    safe
      (record t {
        m_event = some e;
        m_cb = some on_timer_id;
        m_is_loop = false;
        m_state = wait_time_out;
      })
      (rw (start_timer-stopped reply ms on_timer_id false t s g.creates g.adds) refl)
      (
        record {
          valid = waiting e (to_timeval ms) on_timer_id refl refl refl refl refl;
          once = refl;
        },
        refl,
      )

pub stop_timer_state : (t : Timer) → Steps.IsValid t → (stop_timer t).0.m_state ≡ wait_start_timer
stop_timer_state t v = elim (stop_timer_cases t v) [
  | inl (s, e) ↦ rw e s
  | inr (t', s, e, s', f, v') ↦ rw e s'
]

-- A timer that fires once has stopped when its callback is called.
pub expire_pending :
    (t : Timer) (e : Event) (tv : Timeval)
    → IsOnce t
    → t.m_event ≡ some e
    → e.pending ≡ some tv
    → (t' : Timer) × (expire t ≡ ok t')
      × (t.m_state ≡ wait_time_out)
      × (t'.m_state ≡ wait_start_timer)
      × IsOnce t'
expire_pending t e tv o a p = elim o.valid [
  | stopped s (inl n) ↦ cc
  | stopped s (inr (e', a', n)) ↦ cc
  | waiting e' tv' cb s a' p' w c ↦ (
    record t {
      m_event = some (record e' { pending = none });
      m_state = wait_start_timer;
      fired = cb ∷ t.fired;
    },
    expire_once t e' tv' cb s a' p' w c o.once,
    s,
    refl,
    record { valid = stopped refl (inr (record e' { pending = none }, refl, refl)); once = o.once },
  )
]

module _ {E : Env} where
  -- The state of the class is given another value.
  pub user-IsValid :
      (P Q : E.User → Type 0) (c : Con E) (u : E.User)
      → IsValid P c
      → Q u
      → IsValid Q (record c { user = u })
  user-IsValid P Q c u (idle a f k l alive q) h = idle a f k l alive h
  user-IsValid P Q c u (attached bev b a e f alive q) h = attached bev b a e f alive h
