-- ===== src/ConMgr/Cleaner.antt =====
-- src/listener.cc with src/timer_mgr.cc: a BaseConMgr and its own timer, which the constructor starts
-- as a loop. The callback of the timer, OnTimerDelConn, is known by 0.
use libevent_cpp.Prelude.{ℕ, ◌*◌, ◌≡◌, refl, ap, ◌∙◌, true, some, List, [], ◌∷◌}
use libevent_cpp.Prelude.Outcome.{Outcome, ok, ◌>>=◌}
use libevent_cpp.Timer.{
  wait_time_out, Timeval, Event, Timer, new_timer, Reply, to_timeval, start_timer, expire,
}
use libevent_cpp.Timer.Steps.{expire_loop, start_timer-stopped}
use libevent_cpp.ConMgr.{ConMgr, new_con_mgr, on_timer_del_conn}
use libevent_cpp.ConMgr.Owned.{IsValid, new_con_mgr-IsValid}
use libevent_cpp.ConMgr.Abstract.{
  Registrar, Op, op_timer, specified, specified_all, AllAllowed, operate_all, view, operate-view,
  operate_all-specified,
}

abbrev pub delte_connector_interval : ℕ
delte_connector_interval = 1000 * 1

pub record Cleaner : Type 0 where
  pub m_timer : Timer
  pub mgr : ConMgr

unfoldable pub new_cleaner : Reply → ℕ → Outcome Cleaner
new_cleaner r seed = start_timer r delte_connector_interval 0 true new_timer >>= λ t.
    ok (record { m_timer = t.0; mgr = new_con_mgr seed })

-- The callbacks that the timer has called.
called : List ℕ → ConMgr → Outcome ConMgr
called [] m = ok m
called (cb ∷ cbs) m = called cbs m >>= λ m'. on_timer_del_conn m'

-- The time of the timer comes.
unfoldable pub elapse : Cleaner → Outcome Cleaner
unfolding called
elapse c = expire (record c.m_timer { fired = [] }) >>= λ t.
    called t.fired c.mgr >>= λ m. ok (record { m_timer = t; mgr = m })

-- Any operations on the manager, and then the time of the timer, again and again.
unfoldable pub rounds : List (List Op) → Cleaner → Outcome Cleaner
rounds [] c = ok c
rounds (os ∷ oss) c =
    operate_all os c.mgr >>= λ m. elapse (record c { mgr = m }) >>= λ c'. rounds oss c'

abbrev pub specified_rounds : List (List Op) → Registrar → Registrar
specified_rounds [] a = a
specified_rounds (os ∷ oss) a = specified_rounds oss (specified op_timer (specified_all os a))

abbrev pub AllowedRounds : List (List Op) → Registrar → Type 0
AllowedRounds [] a = Unit {0}
AllowedRounds (os ∷ oss) a =
    AllAllowed os a × AllowedRounds oss (specified op_timer (specified_all os a))

-- The timer waits, and will go on when its time has come.
data Ticking (t : Timer) : Type 0 where
  ticking :
      (e : Event) (tv : Timeval)
      → t.m_state ≡ wait_time_out
      → t.m_event ≡ some e
      → e.pending ≡ some tv
      → e.persist ≡ t.m_is_loop
      → t.m_cb ≡ some 0
      → t.m_is_loop ≡ true
      → Ticking t

elapse-Ticking :
    (c : Cleaner)
    → Ticking c.m_timer
    → IsValid c.mgr
    → (c' : Cleaner) × (elapse c ≡ ok c')
      × Ticking c'.m_timer
      × IsValid c'.mgr
      × (view c'.mgr ≡ specified op_timer (view c.mgr))
unfolding elapse
elapse-Ticking c (ticking e tv s p q w cb l) v =
    let (m, run, v', seen) = operate-view op_timer c.mgr v tt in
    let t = record c.m_timer { fired = [] } in
    let rings = expire_loop t e tv 0 s p q w cb l in
    (
      record { m_timer = record t { fired = 0 ∷ [] }; mgr = m },
      rw rings (rw run refl),
      ticking e tv s p q w cb l,
      v',
      seen,
    )

rounds-Ticking :
    (oss : List (List Op)) (c : Cleaner)
    → Ticking c.m_timer
    → IsValid c.mgr
    → AllowedRounds oss (view c.mgr)
    → (c' : Cleaner) × (rounds oss c ≡ ok c')
      × Ticking c'.m_timer
      × (view c'.mgr ≡ specified_rounds oss (view c.mgr))
unfolding rounds
rounds-Ticking [] c t v h = (c, refl, t, refl)
rounds-Ticking (os ∷ oss) c t v h =
    let (m1, e1, v1, s1) = operate_all-specified os c.mgr v h.0 in
    let (c2, e2, t2, v2, s2) = elapse-Ticking (record c { mgr = m1 }) t v1 in
    let seen : view c2.mgr ≡ specified op_timer (specified_all os (view c.mgr)) =
      s2 ∙ ap (specified op_timer) s1 in
    let (c3, e3, t3, s3) = rounds-Ticking oss c2 t2 v2 (rw seen h.1) in
    (c3, rw e1 (rw e2 e3), t3, s3 ∙ ap (specified_rounds oss) seen)

-- A manager cleans up for as long as it lives. Where libevent takes the timer that the constructor
-- starts, then after any number of rounds, each of operations on the manager (new objects at free
-- addresses, under identifiers that are not registered) and the time of the timer, nothing has
-- faulted, each round has deleted all that was posted in it, and no other object, and the timer is
-- waiting for the next.
pub rounds-specified :
    (r : Reply) (seed : ℕ) (oss : List (List Op))
    → r.creates ≡ true
    → r.adds ≡ true
    → AllowedRounds oss (view (new_con_mgr seed))
    → (c : Cleaner) × (c' : Cleaner) × (new_cleaner r seed ≡ ok c)
      × (rounds oss c ≡ ok c')
      × (view c'.mgr ≡ specified_rounds oss (view (new_con_mgr seed)))
      × (c'.m_timer.m_state ≡ wait_time_out)
unfolding new_cleaner new_timer
rounds-specified r seed oss creates adds h =
    let t : Timer = record new_timer {
      m_event = some (record { persist = true; pending = some (to_timeval 1000) });
      m_cb = some 0;
      m_is_loop = true;
      m_state = wait_time_out;
    } in
    let c : Cleaner = record { m_timer = t; mgr = new_con_mgr seed } in
    let starts = start_timer-stopped r 1000 0 true new_timer refl creates adds in
    let (c', e, ticks, seen) =
      rounds-Ticking oss c
        (ticking (record { persist = true; pending = some (to_timeval 1000) }) (to_timeval 1000)
          refl refl refl refl refl refl)
        (new_con_mgr-IsValid seed) h in
    (c, c', rw starts refl, e, seen, waits c' ticks)
  where
    waits : (c' : Cleaner) → Ticking c'.m_timer → c'.m_timer.m_state ≡ wait_time_out
    waits c' (ticking e tv s p q w cb l) = s
