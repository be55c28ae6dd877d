-- ===== src/Trials/Mass/History.antt =====
-- test/client_prj/main.cc, MyConnectClient: what happens to it after its construction, one event
-- after another: it is told to connect, libevent calls the event callback, or its timer's time comes.
use libevent_cpp.Prelude.{ℕ, ◌≡◌, refl, ◌⊎◌, inl, inr, false, Option, List}
use libevent_cpp.Prelude.Outcome.{Outcome, ok, Safe, safe, ◌>>=◌}
use libevent_cpp.Env.{Env}
use libevent_cpp.Con.{MsgPack, Con, conn_event_callback, new_con}
use libevent_cpp.Con.Client.{Attempt, connect_init_ip}
use libevent_cpp.Con.Valid.{Anything, IsValid, Respects, At}
use libevent_cpp.Con.Methods.{Answers, is_connected_event}
use libevent_cpp.Con.Methods.Connecting.{user_kept}
use libevent_cpp.Timer.{Reply, new_timer, wait_start_timer}
use libevent_cpp.Trials.Flood.{Member}
use libevent_cpp.Trials.Mass.{
  s_start, s_connect, s_dis_connect, Mass, mass_on_recv, with_mass, mass, mass_on_connected,
  mass_on_disconnected, time_comes,
}
use libevent_cpp.Trials.Mass.Invariant.{IsGiving, IsSound, fresh, going, start_checked_lem}
use libevent_cpp.Trials.Mass.Safety.{State-cases, Sound, set_mass, connected_started}

disconnected-IsSound : (k : Mass) → IsSound k → IsSound (record k { m_state = s_dis_connect })
disconnected-IsSound k (fresh w o) = fresh w o
disconnected-IsSound k (going m) =
    going (record { not_start = λ h. cc; timer = m.timer; runs = m.runs })

module _ {E : Env} (G : Member (E.User) Mass) (reply : Reply) (rand : ℕ) (g : IsGiving reply) where
  -- The first connection starts the timer.
  first_connected :
      (c : Con E)
      → IsValid (Sound G) c
      → (G.get c.user).m_state ≡ s_start
      → (G.get c.user).m_timer.m_state ≡ wait_start_timer
      → Safe (IsValid (Sound G)) (mass_on_connected G reply rand c)
  unfolding mass_on_connected
  first_connected c v s w =
      let k = G.get c.user in
      elim (start_checked_lem reply rand k.m_timer g w) [
        | safe t e (o, runs) ↦
            let d = record k { m_timer = t; m_state = s_connect } in
            safe (with_mass G d c) (rw (s, mass_on_connected, e) refl) (
              set_mass G (Sound G) IsSound d c v
                (going (record { not_start = λ h. cc; timer = o; runs = runs })))
      ]

  -- Whatever the client is, OnConnected returns.
  connected-Sound :
      (c : Con E)
      → IsValid (Sound G) c
      → Safe (IsValid (Sound G)) (mass_on_connected G reply rand c)
  connected-Sound c v =
      let k = G.get c.user in
      let d = record k { m_state = s_connect } in
      elim (user_kept (Sound G) c v) [
        | going m ↦ safe (with_mass G d c) (connected_started G reply rand g c m.not_start) (
            set_mass G (Sound G) IsSound d c v
              (going (record { not_start = λ h. cc; timer = m.timer; runs = m.runs })))
        | fresh w o ↦ elim (State-cases k.m_state) [
          | inl s ↦ first_connected c v s w
          | inr (n, m) ↦
              safe (with_mass G d c) (connected_started G reply rand g c n)
                (set_mass G (Sound G) IsSound d c v (fresh w o))
        ]
      ]

  -- Every callback keeps the client sound.
  pub Sound-Respects : Respects {E = E} (Sound G) (mass G reply rand)
  unfolding mass mass_on_disconnected
  Sound-Respects = record {
    connected_lem = connected-Sound;
    error_lem = λ e c v. safe c refl v;
    disconnected_lem = λ c v.
        let k = G.get c.user in
        let d = record k { m_state = s_dis_connect } in
        safe (with_mass G d c) refl
          (set_mass G (Sound G) IsSound d c v (disconnected-IsSound k (user_kept (Sound G) c v)));
  }

-- What happens to the client: ConnectInit, a call of the event callback, a message that OnRecv is
-- called with, or the time of its timer.
pub data Event (E : Env) : Type 0 where
  connect_init : Option (List ℕ) → ℕ → Attempt E → Event E
  conn_event : ℕ → Event E
  recv_event : MsgPack → Event E
  timer_event : ℕ → Attempt E → Event E

-- The system answers an attempt, and libevent reports BEV_EVENT_CONNECTED, as they do for every
-- connection; and a message of the peer has the four bytes that the class asks for.
abbrev pub Ready : {E : Env} → Event E → Con E → Type 0
Ready (connect_init ip port t) c = Answers t
Ready (conn_event events) c = (is_connected_event events ≡ false) ⊎ ((bev : ℕ) × At Anything bev c)
Ready (recv_event msg) c = msg.len ≡ 4
Ready (timer_event draw t) c = Answers t

-- A client that is not connected and was never told to connect.
unfoldable pub new_mass : Mass
new_mass = record {
  m_cnt = 0;
  m_state = s_start;
  m_timer = new_timer;
  total_rev_cnt = 0;
  total_recon_cnt = 0;
}

module _ {E : Env} (G : Member (E.User) Mass) where
  -- One event, with what event_add answers and what rand() gives in it.
  unfoldable pub happen : Reply → ℕ → Event E → Con E → Outcome (Con E)
  happen reply rand (connect_init ip port t) c =
      connect_init_ip (mass G reply rand) ip port t c >>= λ r. ok r.0
  happen reply rand (conn_event events) c = conn_event_callback (mass G reply rand) events c
  happen reply rand (recv_event msg) c = mass_on_recv G msg c
  happen reply rand (timer_event draw t) c = time_comes G reply rand draw t c

  -- The clients that a sequence of events leads to, from the construction.
  pub data Lived : Con E → Type 0 where
    born : (bevs : ℕ → Option (E.Bev)) (u : E.User) → G.get u ≡ new_mass → Lived (new_con E bevs u)
    after :
        (c d : Con E) (reply : Reply) (rand : ℕ) (e : Event E)
        → Lived c
        → IsGiving reply
        → Ready e c
        → happen reply rand e c ≡ ok d
        → Lived d
