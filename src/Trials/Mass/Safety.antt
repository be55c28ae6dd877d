-- ===== src/Trials/Mass/Safety.antt =====
-- test/client_prj/main.cc, MyConnectClient: its assertions, over its whole life.
use libevent_cpp.Prelude.{ℕ, ◌+◌, ◌%◌, ◌^◌, ◌≡◌, ◌≢◌, refl, ◌⊎◌, inl, inr, ltb, Bool-cases}
use libevent_cpp.Prelude.Outcome.{ok, Safe, safe, Safe->>=}
use libevent_cpp.Bytes.{store_u32}
use libevent_cpp.Env.{Env}
use libevent_cpp.Con.{Con, disconnect}
use libevent_cpp.Con.Client.{Attempt, try_reconnect}
use libevent_cpp.Con.Receive.{pack}
use libevent_cpp.Con.Send.{send_data_pack}
use libevent_cpp.Con.Valid.{IsValid, idle, attached, Respects, disconnect-IsValid}
use libevent_cpp.Con.Methods.{Answers}
use libevent_cpp.Con.Methods.Connecting.{user_kept, try_reconnect-IsValid}
use libevent_cpp.Con.Methods.Guards.{send_data_pack-Guarded, Guarded-IsValid}
use libevent_cpp.Timer
use libevent_cpp.Timer.{Timer, Reply, wait_time_out, stop_timer, expire}
use libevent_cpp.Trials.Flood.{Member}
use libevent_cpp.Trials.Mass.{
  State, s_start, s_connect, s_dis_connect, Mass, with_mass, mass, mass_on_connected,
  mass_on_disconnected, start_again, on_timer,
}
use libevent_cpp.Trials.Mass.Invariant.{
  IsGiving, IsGoing, IsSound, going, start_checked_lem, stop_timer_state, user-IsValid,
}

-- A state, told apart.
pub State-cases :
    (s : State) → (s ≡ s_start) ⊎ ((s ≢ s_start) × ((s ≡ s_connect) ⊎ (s ≡ s_dis_connect)))
State-cases s_start = inl refl
State-cases s_connect = inr (λ h. cc, inl refl)
State-cases s_dis_connect = inr (λ h. cc, inr refl)

module _ {User : Type 0} (G : Member User Mass) where
  abbrev pub Going : Timer.State → User → Type 0
  Going w u = IsGoing w (G.get u)

  abbrev pub Sound : User → Type 0
  Sound u = IsSound (G.get u)

module _ {E : Env} (G : Member (E.User) Mass) where
  pub set_mass :
      (P : E.User → Type 0) (Q : Mass → Type 0) (k : Mass) (c : Con E)
      → IsValid P c
      → Q k
      → IsValid (λ u. Q (G.get u)) (with_mass G k c)
  set_mass P Q k c v h =
      user-IsValid P (λ u. Q (G.get u)) c (G.set k c.user) v (rw (G.get-set k c.user) h)

  -- A client that is going is one of the two.
  pub Going-Sound : (c : Con E) → IsValid (Going G wait_time_out) c → IsValid (Sound G) c
  Going-Sound c (idle a f k l alive q) = idle a f k l alive (going q)
  Going-Sound c (attached bev b a e f alive q) = attached bev b a e f alive (going q)

  module _ (reply : Reply) (rand : ℕ) (g : IsGiving reply) where
    pub connected_started :
        (c : Con E)
        → (G.get c.user).m_state ≢ s_start
        → mass_on_connected G reply rand c
          ≡ ok (with_mass G (record (G.get c.user) { m_state = s_connect }) c)
    unfolding mass_on_connected
    connected_started c n = elim (State-cases (G.get c.user).m_state) [
      | inl s ↦ absurd (n s)
      | inr (m, inl s) ↦ rw (s, mass_on_connected) refl
      | inr (m, inr s) ↦ rw (s, mass_on_connected) refl
    ]

    -- Once it is going, the callbacks keep it so, and its timer too.
    pub Going-Respects : (w : Timer.State) → Respects {E = E} (Going G w) (mass G reply rand)
    unfolding mass mass_on_disconnected
    Going-Respects w = record {
      connected_lem = λ c v.
          let k = user_kept (Going G w) c v in
          let d = record (G.get c.user) { m_state = s_connect } in
          safe (with_mass G d c) (connected_started c k.not_start) (
            set_mass (Going G w) (IsGoing w) d c v
              (record { not_start = λ h. cc; timer = k.timer; runs = k.runs }));
      error_lem = λ e c v. safe c refl v;
      disconnected_lem = λ c v.
          let k = user_kept (Going G w) c v in
          let d = record (G.get c.user) { m_state = s_dis_connect } in
          safe (with_mass G d c) refl (
            set_mass (Going G w) (IsGoing w) d c v
              (record { not_start = λ h. cc; timer = k.timer; runs = k.runs }));
    }

    start_again-IsValid :
        (w : Timer.State) (c : Con E)
        → IsValid (Going G w) c
        → Safe (IsValid (Going G wait_time_out)) (start_again G reply rand c)
    unfolding start_again
    start_again-IsValid w c v =
        let k = user_kept (Going G w) c v in
        let t = (G.get c.user).m_timer in
        elim (start_checked_lem reply rand (stop_timer t).0 g (stop_timer_state t k.timer.valid)) [
          | safe t' e (o, runs) ↦
              let d = record (G.get c.user) { m_timer = t' } in
              safe (with_mass G d c) (rw e refl) (
                set_mass (Going G w) (IsGoing wait_time_out) d c v
                  (record { not_start = k.not_start; timer = o; runs = runs }))
        ]

    pub on_timer-IsValid :
        (draw : ℕ) (attempt : Attempt E) (w : Timer.State) (c : Con E)
        → Answers attempt
        → IsValid (Going G w) c
        → Safe (IsValid (Going G wait_time_out)) (on_timer G reply rand draw attempt c)
    unfolding on_timer
    on_timer-IsValid draw attempt w c a v =
        let U = mass G reply rand in
        let k = G.get c.user in
        let m = user_kept (Going G w) c v in
        elim (State-cases k.m_state) [
          | inl s ↦ absurd (m.not_start s)
          | inr (n, inl s) ↦ elim (Bool-cases (ltb (draw % 100) 10)) [
            | inl few ↦
                rw (s, on_timer, few)
                  (Safe->>= (disconnect U c) _
                    (disconnect-IsValid (Going G w) U (Going-Respects w) c v)
                    (start_again-IsValid w))
            | inr many ↦
                let up = (k.m_cnt + 1) % 2 ^ 32 in
                let d = record k { m_cnt = up } in
                let v1 : IsValid (Going G w) (with_mass G d c) =
                  set_mass (Going G w) (IsGoing w) d c v
                    (record { not_start = m.not_start; timer = m.timer; runs = m.runs }) in
                rw (s, on_timer, many)
                  (Safe->>= (send_data_pack U (pack (store_u32 up)) (with_mass G d c)) _
                    (Guarded-IsValid (Going G w) U (Going-Respects w) _ (with_mass G d c) v1 (
                      send_data_pack-Guarded (Going G w) U (with_mass G d c) (pack (store_u32 up))))
                    (λ r x. start_again-IsValid w r.0 x))
          ]
          | inr (n, inr s) ↦
              let d = record k { total_recon_cnt = (k.total_recon_cnt + 1) % 2 ^ 32 } in
              let v1 : IsValid (Going G w) (with_mass G d c) =
                set_mass (Going G w) (IsGoing w) d c v
                  (record { not_start = m.not_start; timer = m.timer; runs = m.runs }) in
              rw (s, on_timer)
                (Safe->>= (try_reconnect U attempt (with_mass G d c)) _
                  (try_reconnect-IsValid (Going G w) U (Going-Respects w) attempt (with_mass G d c)
                    v1 a)
                  (λ r x. start_again-IsValid w r.0 x))
        ]
