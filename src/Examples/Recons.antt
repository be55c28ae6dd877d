-- ===== src/Examples/Recons.antt =====
-- The client that is made and deleted by turns.
use libevent_cpp.Prelude.{◌≡◌, refl, true, false, some, none, ℕ}
use libevent_cpp.Prelude.Int.{pos}
use libevent_cpp.Prelude.Outcome.{ok, Safe}
use libevent_cpp.Con.Client.{Attempt}
use libevent_cpp.Timer.{new_timer, stop_timer, to_timeval, wait_time_out}
use libevent_cpp.Timer.Steps.{start_timer-stopped}
use libevent_cpp.Trials.Flood.{Member}
use libevent_cpp.Trials.Mass.Invariant.{stop_timer_state}
use libevent_cpp.Trials.Recon.{Counted, ClientReconByDelCtr, new_ctr}
use libevent_cpp.Trials.Recon.Created.{Succeeds}
use libevent_cpp.Trials.Recon.Turns.{has_client}
use libevent_cpp.Trials.Recon.History.{
  timed, client_after, take_turn, Lived, born, take_turn-Lived, new_timer-IsValid,
}
use libevent_cpp.Examples.World.{world, empty}
use libevent_cpp.Examples.Masses.{gives, gives-IsGiving, no_bevs}

abbrev sole : Member Counted Counted
sole = record { get = λ u. u; set = λ a u. a; get-set = λ a u. refl }

abbrev at_first : Counted
at_first = record { m_cnt = 0; total_rev_cnt = 0 }

abbrev tries : Attempt (world Counted)
tries = record {
  socket_fd = pos 5;
  new_bev = some (1, empty);
  early_events = none;
  connects = true;
}

tries-Succeeds : Succeeds tries
tries-Succeeds = record {
  p = 1;
  b = empty;
  made = refl;
  nonzero = refl;
  nonneg = refl;
  quiet = refl;
  going = refl;
}

abbrev begun : ClientReconByDelCtr (world Counted)
begun = record {
  m_client = none;
  m_timer = record (stop_timer new_timer).0 {
    m_event = some (record { persist = true; pending = some (to_timeval 2000) });
    m_cb = some 1;
    m_is_loop = true;
    m_state = wait_time_out;
  };
  bevs = no_bevs;
  last = at_first;
}

begins : new_ctr sole gives no_bevs at_first ≡ ok begun
unfolding new_ctr
begins =
    rw
      (start_timer-stopped gives 2000 1 true (stop_timer new_timer).0
        (stop_timer_state new_timer new_timer-IsValid) refl refl)
      refl

take_turn-Lived_example :
    Safe
      (λ d.
        Lived sole d
        × (has_client d ≡ client_after (timed tries) (has_client begun))
        × (has_client d ≡ false → (q : ℕ) → d.bevs q ≡ none))
      (take_turn sole (timed tries) begun)
take_turn-Lived_example =
    take_turn-Lived sole (timed tries) begun
      (born gives no_bevs at_first begun gives-IsGiving (λ q. refl) begins) tries-Succeeds
