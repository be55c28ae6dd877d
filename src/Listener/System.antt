-- ===== src/Listener/System.antt =====
-- src/listener.cc and include/listener.h, a server as a whole: the manager, its timer, and all the
-- connection objects. libevent calls them one event at a time. A callback finds the manager as the
-- last one left it. `app` is the class of the connections.
pub mod Handled
pub mod Others
pub mod Safety
pub mod Ticked
pub mod History
use libevent_cpp.Prelude.{ℕ, Option, none, some, List, [], ◌∷◌, ◌==◌, if◌then◌else◌}
use libevent_cpp.Prelude.Int.{ℤ}
use libevent_cpp.Prelude.Outcome.{Outcome, ok, fault, Fault, ◌>>=◌}
use libevent_cpp.Env.{Env}
use libevent_cpp.Con.{Con, Handlers, SockAddr, conn_event_callback, destroy_con, update}
use libevent_cpp.Con.Session.{arrive}
use libevent_cpp.ConMgr.{ConMgr, find_conn, svr_id, next_seed, on_timer_del_conn}
use libevent_cpp.Listener.{Manages, Listener, svr_handlers, svr_disconnect, listener_cb}

-- The connection objects by their addresses.
pub record Server (E : Env) : Type 0 where
  pub listener : Listener
  pub mgr : ConMgr
  pub cons : ℕ → Option (Con E)

-- A socket is accepted, for which the new object is at address `p`, and the new bufferevent, with
-- content `b`, at `bev`; bytes arrive on a connection; libevent reports events; the user's code
-- drops the connection that it finds under an identifier; the timer runs.
pub data Event (E : Env) : Type 0 where
  accepted : ℕ → ℕ → ℤ → Option SockAddr → ℕ → E.Bev → E.User → Event E
  arrived : ℕ → List ℕ → Event E
  reported : ℕ → ℕ → Event E
  asked : ℕ → Event E
  ticked : Event E

module _ {E : Env} where
  -- The objects are deleted, each with ~ConCom.
  unfoldable pub destroy_all : List ℕ → (ℕ → Option (Con E)) → Outcome (ℕ → Option (Con E))
  destroy_all [] cons = ok cons
  destroy_all (p ∷ ps) cons = elim (cons p) [
    | none ↦ fault Fault.use_after_free
    | some c ↦ destroy_con c >>= λ c'. destroy_all ps (update cons p none)
  ]

module _ {E : Env} (M : Manages (E.User)) where
  abbrev pub enter : ConMgr → Con E → Con E
  enter m c = record c { user = M.set m c.user }

  abbrev pub leave : ℕ → Con E → Server E → Server E
  leave p c s = record s { mgr = M.get c.user; cons = update s.cons p (some c) }

  -- Something is done with the object at `p`, which has an identifier.
  unfoldable pub handle : (ℕ → Con E → Outcome (Con E)) → ℕ → Server E → Outcome (Server E)
  handle f p s = elim (s.cons p) [
    | none ↦ ok s
    | some c ↦ elim (s.mgr.objs p) [
      | none ↦ fault Fault.use_after_free
      | some id ↦ f id (enter s.mgr c) >>= λ c'. ok (leave p c' s)
    ]
  ]

  module _ (app : Handlers E) where
    -- libevent calls nothing for an object without a bufferevent.
    unfoldable pub on_arrived : List ℕ → ℕ → Con E → Outcome (Con E)
    on_arrived xs id c = elim c.m_buf_e [
      | none ↦ ok c
      | some bev ↦ arrive (svr_handlers M id app) bev xs c
    ]

    unfoldable pub on_reported : ℕ → ℕ → Con E → Outcome (Con E)
    on_reported events id c = elim c.m_buf_e [
      | none ↦ ok c
      | some bev ↦ conn_event_callback (svr_handlers M id app) events c
    ]

    unfoldable pub on_asked : ℕ → Con E → Outcome (Con E)
    on_asked id c = svr_disconnect M id app c >>= λ r. ok r.0

    unfoldable pub step : Event E → Server E → Outcome (Server E)
    unfolding handle destroy_all on_arrived on_reported on_asked
    step (accepted p sec fd sa bev b u) s =
        let id = svr_id sec (next_seed s.mgr.seed) in
        listener_cb M s.listener id app (some p) sec fd sa (some (bev, b)) (λ q. none)
          (M.set s.mgr u)
        >>= λ r. ok (record s { mgr = M.get r.1; cons = update s.cons p r.0 })
    step (arrived p xs) s = handle (on_arrived xs) p s
    step (reported p events) s = handle (on_reported events) p s
    step (asked id) s = elim (find_conn id s.mgr) [ none ↦ ok s | some p ↦ handle on_asked p s ]
    step ticked s = on_timer_del_conn s.mgr >>= λ m.
        destroy_all s.mgr.m_vwdc s.cons >>= λ cons. ok (record s { mgr = m; cons = cons })

    unfoldable pub run : List (Event E) → Server E → Outcome (Server E)
    run [] s = ok s
    run (e ∷ es) s = step e s >>= λ s'. run es s'
