-- ===== src/Trials/Recon/History.antt =====
-- test/client_prj/main.cc, ClientReconByDelCtr: what happens to it from its construction on, one turn
-- after another.
use libevent_cpp.Prelude.{ℕ, ◌≡◌, refl, subst, inl, inr, Bool, true, false, not, Option, none, some}
use libevent_cpp.Prelude.Outcome.{Outcome, ok, ok_same, Safe, safe}
use libevent_cpp.Env.{Env}
use libevent_cpp.Con.{MsgPack}
use libevent_cpp.Con.Client.{Attempt}
use libevent_cpp.Timer.{Reply, new_timer, wait_time_out, to_timeval, stop_timer}
use libevent_cpp.Timer.Steps
use libevent_cpp.Timer.Steps.{stopped, start_timer-stopped}
use libevent_cpp.Trials.Flood.{Member}
use libevent_cpp.Trials.Mass.Invariant.{IsGiving, stop_timer_state}
use libevent_cpp.Trials.Recon.{
  client_recv, Counted, recon_interval, ctr_on_timer_id, ClientReconByDelCtr, new_ctr,
  ctr_time_comes, client_event,
}
use libevent_cpp.Trials.Recon.Created.{Succeeds}
use libevent_cpp.Trials.Recon.Turns.{
  has_client, Called, IsKept, Leads, ctr_time_comes-Leads, client_recv-Leads, client_event-Leads,
}

-- The time of the timer, a call of the client's event callback, or a message of the peer.
pub data Turn (E : Env) : Type 0 where
  timed : Attempt E → Turn E
  called_back : ℕ → Turn E
  received : MsgPack → Turn E

-- What the program asserts, of things outside: the attempt of a new client succeeds, and a message
-- has four bytes. And libevent reports BEV_EVENT_CONNECTED only for a bufferevent that is there.
abbrev pub Ready : {E : Env} → Turn E → ClientReconByDelCtr E → Type 0
Ready (timed t) k = Succeeds t
Ready (called_back events) k = Called events k
Ready (received msg) k = msg.len ≡ 4

-- Whether there is a client after a turn, if `full` says whether there is one before it.
abbrev pub client_after : {E : Env} → Turn E → Bool → Bool
client_after (timed t) full = not full
client_after (called_back events) full = full
client_after (received msg) full = full

pub new_timer-IsValid : Steps.IsValid new_timer
unfolding new_timer
new_timer-IsValid = stopped refl (inl refl)

module _ {E : Env} (G : Member (E.User) Counted) where
  abbrev pub take_turn : Turn E → ClientReconByDelCtr E → Outcome (ClientReconByDelCtr E)
  take_turn (timed t) k = ctr_time_comes G t k
  take_turn (called_back events) k = client_event G events k
  take_turn (received msg) k = client_recv G msg k

  -- The states that a sequence of turns leads to.
  pub data Lived : ClientReconByDelCtr E → Type 0 where
    born :
        (reply : Reply) (bevs : ℕ → Option (E.Bev)) (last : E.User) (k : ClientReconByDelCtr E)
        → IsGiving reply
        → ((q : ℕ) → bevs q ≡ none)
        → new_ctr G reply bevs last ≡ ok k
        → Lived k
    after :
        (k d : ClientReconByDelCtr E) (turn : Turn E)
        → Lived k
        → Ready turn k
        → take_turn turn k ≡ ok d
        → Lived d

  new_ctr-Leads :
      (reply : Reply) (bevs : ℕ → Option (E.Bev)) (last : E.User)
      → IsGiving reply
      → ((q : ℕ) → bevs q ≡ none)
      → Safe (Leads {E = E} G false) (new_ctr G reply bevs last)
  unfolding new_ctr
  new_ctr-Leads reply bevs last g empty =
      let t = (stop_timer new_timer).0 in
      let u = record t {
        m_event = some (record { persist = true; pending = some (to_timeval recon_interval) });
        m_cb = some ctr_on_timer_id;
        m_is_loop = true;
        m_state = wait_time_out;
      } in
      safe (record { m_client = none; m_timer = u; bevs = bevs; last = last })
        (rw
          (start_timer-stopped reply recon_interval ctr_on_timer_id true t
            (stop_timer_state new_timer new_timer-IsValid) g.creates g.adds)
          refl)
        (
          record {
            timer = record {
              e = record { persist = true; pending = some (to_timeval recon_interval) };
              tv = to_timeval recon_interval;
              cb = ctr_on_timer_id;
              state = refl;
              has = refl;
              pends = refl;
              repeats = refl;
              calls = refl;
              loops = refl;
            };
            client = inl (refl, empty);
          },
          refl,
        )

  take_turn-Leads :
      (turn : Turn E) (k : ClientReconByDelCtr E)
      → Ready turn k
      → IsKept G k
      → Safe (Leads G (client_after turn (has_client k))) (take_turn turn k)
  take_turn-Leads (timed t) k r v = ctr_time_comes-Leads G t k r v
  take_turn-Leads (called_back events) k r v = client_event-Leads G events k r v
  take_turn-Leads (received msg) k r v = client_recv-Leads G msg k r v

  Lived-IsKept : (k : ClientReconByDelCtr E) → Lived k → IsKept G k
  Lived-IsKept k (born reply bevs last _ g empty h) = elim (new_ctr-Leads reply bevs last g empty) [
    | safe d e v ↦ subst {A = ClientReconByDelCtr E} (IsKept G) (ok_same e h) v.0
  ]
  Lived-IsKept d (after k _ turn l r h) = elim (take_turn-Leads turn k r (Lived-IsKept k l)) [
    | safe d' e v ↦ subst {A = ClientReconByDelCtr E} (IsKept G) (ok_same e h) v.0
  ]

  nothing_left :
      (k : ClientReconByDelCtr E) → IsKept G k → has_client k ≡ false → (q : ℕ) → k.bevs q ≡ none
  nothing_left k v f = elim v.client [
    | inl (n, empty) ↦ empty
    | inr (c, h, w) ↦ let full : has_client k ≡ true = rw h refl in cc
  ]

  -- After any sequence of turns from the construction, which finds no bufferevent, the next turn ends
  -- without a fault, so no assertion fails; the timer makes a client if there is none and deletes
  -- it if there is one, and an event or a message of the client does neither. Without a client no
  -- bufferevent is left. This is where event_new gives an event for the timer and event_add takes
  -- it; each attempt of a new client succeeds, as CreateClient asserts (a socket other than 0, a
  -- bufferevent, and a connect that goes on with nothing reported before it returns);
  -- BEV_EVENT_CONNECTED is reported only for a bufferevent that is there; and each message has four
  -- bytes, as OnRecv asserts.
  pub take_turn-Lived :
      (turn : Turn E) (k : ClientReconByDelCtr E)
      → Lived k
      → Ready turn k
      → Safe
          (λ d.
            Lived d
            × (has_client d ≡ client_after turn (has_client k))
            × (has_client d ≡ false → (q : ℕ) → d.bevs q ≡ none))
          (take_turn turn k)
  take_turn-Lived turn k l r = elim (take_turn-Leads turn k r (Lived-IsKept k l)) [
    | safe d e v ↦ safe d e (after k d turn l r e, v.1, nothing_left d v.0)
  ]
