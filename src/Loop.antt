-- ===== src/Loop.antt =====
-- src/lev_mgr.cc and include/lev_mgr.h: the class EventMgr, which passes calls on to one libevent
-- event base. `asked` is what it asked libevent to do, the last thing first.
use libevent_cpp.Prelude.{
  ℕ, ◌≡◌, refl, Bool, true, false, Option, none, some, List, [], ◌∷◌, if◌then◌else◌, ◌==◌, arith,
  Option-cases, inl, inr,
}
use mathlib.Core.List.{reverse, reverse_aux}
use libevent_cpp.Log.{LogLv, ll_debug, ll_info, ll_warn, ll_error, ll_fatal}

pub data Asked : Type 0 where
  set_log_callback set_fatal_callback new_base dispatch loopexit free_base : Asked
  new_signal add_signal : ℕ → Asked

pub record EventMgr : Type 0 where
  pub m_eb : Option ℕ
  pub asked : List Asked

-- event_base_new gives the base, or null. The call of signal() is none of libevent.
unfoldable pub new_event_mgr : Option ℕ → EventMgr
new_event_mgr base = record {
  m_eb = base;
  asked = new_base ∷ set_fatal_callback ∷ set_log_callback ∷ [];
}

-- LIB_EVENT_LOG: the level of a line of libevent's own.
unfoldable lib_event_log : ℕ → LogLv
lib_event_log severity =
    if severity == 0
    then ll_debug
    else if severity == 1
    then ll_info
    else if severity == 2
    then ll_warn
    else if severity == 3
    then ll_error
    else ll_fatal

unfoldable pub run_dispatch : EventMgr → EventMgr
run_dispatch m = elim m.m_eb [ none ↦ m | some eb ↦ record m { asked = dispatch ∷ m.asked } ]

-- `exits`: event_base_loopexit returns 0.
unfoldable pub stop_dispatch : Bool → EventMgr → EventMgr × Bool
stop_dispatch exits m = elim m.m_eb [
  | none ↦ (m, false)
  | some eb ↦ (record m { asked = loopexit ∷ m.asked }, exits)
]

-- `made` and `adds`: evsignal_new gives an event, and event_add takes it; whether it does changes
-- nothing but the log.
unfoldable pub reg_signal : Bool → Bool → ℕ → EventMgr → EventMgr
reg_signal made adds sig_type m = elim m.m_eb [
  | none ↦ m
  | some eb ↦
      let m1 = record m { asked = new_signal sig_type ∷ m.asked } in
      if made then record m1 { asked = add_signal sig_type ∷ m1.asked } else m1
]

unfoldable pub free_event_base : EventMgr → EventMgr
free_event_base m = elim m.m_eb [
  | none ↦ m
  | some eb ↦ record m { m_eb = none; asked = free_base ∷ m.asked }
]

-- ~EventMgr.
unfoldable pub destroy_event_mgr : EventMgr → EventMgr
unfolding free_event_base
destroy_event_mgr m = free_event_base m

-- The function that RegSignal was given, `none` if null, is called with the signal.
unfoldable signal_cb : {A : Type 0} → Option (ℕ → A → A) → ℕ → A → A
signal_cb none sig user = user
signal_cb (some fun) sig user = fun sig user

pub data Do : Type 0 where
  do_dispatch do_free : Do
  do_stop : Bool → Do
  do_signal : Bool → Bool → ℕ → Do

abbrev pub do_it : Do → EventMgr → EventMgr
do_it do_dispatch m = run_dispatch m
do_it do_free m = free_event_base m
do_it (do_stop exits) m = (stop_dispatch exits m).0
do_it (do_signal made adds sig_type) m = reg_signal made adds sig_type m

abbrev pub do_all : List Do → EventMgr → EventMgr
do_all [] m = m
do_all (d ∷ ds) m = do_all ds (do_it d m)

no_base : (d : Do) (m : EventMgr) → m.m_eb ≡ none → do_it d m ≡ m
unfolding run_dispatch stop_dispatch reg_signal free_event_base
no_base do_dispatch m e = ground (arith, e)
no_base do_free m e = ground (arith, e)
no_base (do_stop exits) m e = ground (arith, e)
no_base (do_signal made adds sig_type) m e = ground (arith, e)

freed : (m : EventMgr) → (free_event_base m).m_eb ≡ none
unfolding free_event_base
freed m = elim (Option-cases m.m_eb) [ inl e ↦ ground (arith, e) | inr (eb, e) ↦ ground (arith, e) ]

still : (ds : List Do) (m : EventMgr) → m.m_eb ≡ none → do_all ds m ≡ m
still [] m e = refl
still (d ∷ ds) m e = rw (no_base d m e) (still ds m e)

-- Once an EventMgr has given up its event base, nothing that it is told to do reaches libevent any
-- more, a second release included.
do_all_freed : (ds : List Do) (m : EventMgr) → do_all ds (free_event_base m) ≡ free_event_base m
do_all_freed ds m = still ds (free_event_base m) (freed m)

-- What reaches libevent of what an EventMgr with an event base is told to do, in this order: all up
-- to the release of the base, and that; the base is released by the destructor at the latest. An
-- event for a signal is added if it could be made.
abbrev pub reaches : List Do → List Asked
reaches [] = free_base ∷ []
reaches (do_dispatch ∷ ds) = dispatch ∷ reaches ds
reaches (do_free ∷ ds) = free_base ∷ []
reaches (do_stop exits ∷ ds) = loopexit ∷ reaches ds
reaches (do_signal made adds sig_type ∷ ds) =
    new_signal sig_type ∷ (if made then add_signal sig_type ∷ reaches ds else reaches ds)

with_base :
    (b : ℕ) (ds : List Do) (asked : List Asked)
    → (destroy_event_mgr (do_all ds (record { m_eb = some b; asked = asked }))).asked
      ≡ reverse_aux (reaches ds) asked
unfolding destroy_event_mgr free_event_base run_dispatch stop_dispatch reg_signal
with_base b [] asked = refl
with_base b (do_dispatch ∷ ds) asked = with_base b ds (dispatch ∷ asked)
with_base b (do_free ∷ ds) asked =
    let gone : EventMgr = record { m_eb = none; asked = free_base ∷ asked } in
    rw (still ds gone refl) refl
with_base b (do_stop exits ∷ ds) asked = with_base b ds (loopexit ∷ asked)
with_base b (do_signal true adds sig_type ∷ ds) asked =
    with_base b ds (add_signal sig_type ∷ new_signal sig_type ∷ asked)
with_base b (do_signal false adds sig_type ∷ ds) asked =
    with_base b ds (new_signal sig_type ∷ asked)

abbrev begun : List Asked
begun = new_base ∷ set_fatal_callback ∷ set_log_callback ∷ []

-- In the whole life of an EventMgr, from its constructor to its destructor, the calls that it makes
-- of libevent are, in order: those of the constructor, which sets the log callback and the fatal
-- callback and asks for an event base; then, if libevent gave it one, the calls of what it was told
-- to do up to the first FreeEventBase (evsignal_new for each RegSignal, and event_add where that gave
-- an event), and the release of the event base, once and last; and no other call at all if
-- libevent gave it none.
pub life_asked :
    (base : Option ℕ) (ds : List Do)
    → (destroy_event_mgr (do_all ds (new_event_mgr base))).asked
      ≡ reverse (
          set_log_callback
          ∷ set_fatal_callback
          ∷ new_base
          ∷ (elim base [ none ↦ [] | some b ↦ reaches ds ]))
unfolding new_event_mgr destroy_event_mgr free_event_base
life_asked (some b) ds = with_base b ds begun
life_asked none ds = rw (still ds (record { m_eb = none; asked = begun }) refl) refl
