-- ===== src/Trials/Mass/Running.antt =====
-- test/client_prj/main.cc, MyConnectClient: its assertions, and its timer, over its whole life.
use libevent_cpp.Prelude.{◌+◌, ◌%◌, ◌^◌, ℕ, ◌≡◌, ◌≢◌, refl, subst, inl, inr, Option-cases}
use libevent_cpp.Prelude.Outcome.{Outcome, ok, ok_same, Safe, safe, Safe->>=}
use libevent_cpp.Env.{Env}
use libevent_cpp.Con.{MsgPack, Con, new_con}
use libevent_cpp.Con.Client.{Attempt, connect_init_ip}
use libevent_cpp.Con.Valid.{IsValid, idle, Respects}
use libevent_cpp.Con.Methods.{Answers}
use libevent_cpp.Con.Methods.Connecting.{user_kept, event-IsValid, connect_init_ip-IsValid}
use libevent_cpp.Timer.{Timer, Reply, new_timer, wait_start_timer, wait_time_out}
use libevent_cpp.Timer.Steps.{stopped}
use libevent_cpp.Trials.Flood.{Member}
use libevent_cpp.Trials.Mass.{mass_on_recv, Mass, with_mass, mass, time_comes}
use libevent_cpp.Trials.Mass.Invariant.{
  IsGiving, IsOnce, IsGoing, IsSound, fresh, going, expire_pending, user-IsValid,
}
use libevent_cpp.Trials.Mass.Safety.{
  Going, Sound, set_mass, Going-Sound, Going-Respects, on_timer-IsValid,
}
use libevent_cpp.Trials.Mass.History.{
  Sound-Respects, Event, connect_init, recv_event, conn_event, timer_event, Ready, new_mass, happen,
  Lived, born, after,
}

idle_waits : (t : Timer) → t.m_state ≡ wait_start_timer → t.m_state ≢ wait_time_out
idle_waits t a b = cc

new_mass-IsSound : (k : Mass) → k ≡ new_mass → IsSound k
unfolding new_mass new_timer
new_mass-IsSound k n = rw n (fresh refl (record { valid = stopped refl (inl refl); once = refl }))

counted-IsSound : (k : Mass) (n : ℕ) → IsSound k → IsSound (record k { total_rev_cnt = n })
counted-IsSound k n (fresh w o) = fresh w o
counted-IsSound k n (going m) =
    going (record { not_start = m.not_start; timer = m.timer; runs = m.runs })

-- Its timer is pending.
abbrev pub Runs : Mass → Type 0
Runs k = k.m_timer.m_state ≡ wait_time_out

module _ {E : Env} (G : Member (E.User) Mass) where
  -- A time that comes: the timer was stopped by it, and OnTimer starts it again.
  pending_comes :
      (reply : Reply) (rand draw : ℕ) (t : Attempt E) (c : Con E)
      → IsGiving reply
      → Answers t
      → IsValid (Going G wait_time_out) c
      → Safe (IsValid (Going G wait_time_out)) (time_comes G reply rand draw t c)
  unfolding time_comes
  pending_comes reply rand draw t c g a v =
      let k = G.get c.user in
      let m = user_kept (Going G wait_time_out) c v in
      elim (Option-cases k.m_timer.m_event) [
        | inl n ↦ rw (n, time_comes) (safe c refl v)
        | inr (e, h) ↦ elim (Option-cases e.pending) [
          | inl n ↦ rw (h, time_comes, n) (safe c refl v)
          | inr (tv, p) ↦
              let (t', f, s', w, o') = expire_pending k.m_timer e tv m.timer h p in
              let d = record k { m_timer = t' } in
              rw (h, time_comes, p, f)
                (on_timer-IsValid G reply rand g draw t wait_start_timer (with_mass G d c) a (
                  set_mass G (Going G wait_time_out) (IsGoing wait_start_timer) d c v
                    (record { not_start = m.not_start; timer = o'; runs = w })))
        ]
      ]

  -- A timer that does not run is not called.
  fresh_comes :
      (reply : Reply) (rand draw : ℕ) (t : Attempt E) (c : Con E)
      → (G.get c.user).m_timer.m_state ≡ wait_start_timer
      → IsOnce (G.get c.user).m_timer
      → time_comes G reply rand draw t c ≡ ok c
  unfolding time_comes
  fresh_comes reply rand draw t c s o =
      let k = G.get c.user in
      elim (Option-cases k.m_timer.m_event) [
        | inl n ↦ rw (n, time_comes) refl
        | inr (e, h) ↦ elim (Option-cases e.pending) [
          | inl n ↦ rw (h, time_comes, n) refl
          | inr (tv, p) ↦
              let (t', f, s', w, o') = expire_pending k.m_timer e tv o h p in
              absurd (idle_waits k.m_timer s s')
        ]
      ]

  Going-IsValid :
      (c : Con E)
      → IsValid (Sound G) c
      → IsGoing wait_time_out (G.get c.user)
      → IsValid (Going G wait_time_out) c
  Going-IsValid c v m = user-IsValid (Sound G) (Going G wait_time_out) c c.user v m

  Safe-Sound :
      (o : Outcome (Con E)) → Safe (IsValid (Going G wait_time_out)) o → Safe (IsValid (Sound G)) o
  Safe-Sound o (safe c e v) = safe c e (Going-Sound G c v)

  Sound-comes :
      (reply : Reply) (rand draw : ℕ) (t : Attempt E) (c : Con E)
      → IsGiving reply
      → Answers t
      → IsValid (Sound G) c
      → Safe (IsValid (Sound G)) (time_comes G reply rand draw t c)
  Sound-comes reply rand draw t c g a v = elim (user_kept (Sound G) c v) [
    | fresh s o ↦ safe c (fresh_comes reply rand draw t c s o) v
    | going m ↦
        Safe-Sound (time_comes G reply rand draw t c)
          (pending_comes reply rand draw t c g a (Going-IsValid c v m))
  ]

  -- A message of four bytes is counted.
  recv-Sound :
      (msg : MsgPack) (c : Con E)
      → msg.len ≡ 4
      → IsValid (Sound G) c
      → Safe (IsValid (Sound G)) (mass_on_recv G msg c)
  unfolding mass_on_recv
  recv-Sound msg c h v =
      let k = G.get c.user in
      let n = (k.total_rev_cnt + 1) % 2 ^ 32 in
      safe (with_mass G (record k { total_rev_cnt = n }) c) (rw h refl) (
        set_mass G (Sound G) IsSound (record k { total_rev_cnt = n }) c v
          (counted-IsSound k n (user_kept (Sound G) c v)))

  recv-Going :
      (msg : MsgPack) (c : Con E)
      → msg.len ≡ 4
      → IsValid (Going G wait_time_out) c
      → Safe (IsValid (Going G wait_time_out)) (mass_on_recv G msg c)
  unfolding mass_on_recv
  recv-Going msg c h v =
      let k = G.get c.user in
      let m = user_kept (Going G wait_time_out) c v in
      let n = (k.total_rev_cnt + 1) % 2 ^ 32 in
      safe (with_mass G (record k { total_rev_cnt = n }) c) (rw h refl) (
        set_mass G (Going G wait_time_out) (IsGoing wait_time_out) (record k { total_rev_cnt = n })
          c v (record { not_start = m.not_start; timer = m.timer; runs = m.runs }))

  module _ (reply : Reply) (rand : ℕ) (g : IsGiving reply) where
    -- An event keeps what the callbacks and the timer keep.
    happen-IsValid :
        (P : E.User → Type 0)
        → Respects {E = E} P (mass G reply rand)
        → ((draw : ℕ) (t : Attempt E) (c : Con E)
            → Answers t
            → IsValid P c
            → Safe (IsValid P) (time_comes G reply rand draw t c))
        → ((msg : MsgPack) (c : Con E)
            → msg.len ≡ 4
            → IsValid P c
            → Safe (IsValid P) (mass_on_recv G msg c))
        → (e : Event E) (c : Con E) → Ready e c
        → IsValid P c
        → Safe (IsValid P) (happen G reply rand e c)
    unfolding happen
    happen-IsValid P u k n (connect_init ip port t) c r v =
        Safe->>= (connect_init_ip (mass G reply rand) ip port t c) _
          (connect_init_ip-IsValid P (mass G reply rand) u ip port t c v r) (λ d w. safe d.0 refl w)
    happen-IsValid P u k n (conn_event events) c r v =
        event-IsValid P (mass G reply rand) u events c v r
    happen-IsValid P u k n (recv_event msg) c r v = n msg c r v
    happen-IsValid P u k n (timer_event draw t) c r v = k draw t c r v

    happen-Sound :
        (e : Event E) (c : Con E)
        → Ready e c
        → IsValid (Sound G) c
        → Safe (IsValid (Sound G)) (happen G reply rand e c)
    happen-Sound =
        happen-IsValid (Sound G) (Sound-Respects G reply rand g)
          (λ draw t c a v. Sound-comes reply rand draw t c g a v) recv-Sound

    happen-Going :
        (e : Event E) (c : Con E)
        → Ready e c
        → IsValid (Going G wait_time_out) c
        → Safe (IsValid (Going G wait_time_out)) (happen G reply rand e c)
    happen-Going =
        happen-IsValid (Going G wait_time_out) (Going-Respects G reply rand g wait_time_out)
          (λ draw t c a v. pending_comes reply rand draw t c g a v) recv-Going

  Lived-IsValid : (c : Con E) → Lived G c → IsValid (Sound G) c
  unfolding new_con
  Lived-IsValid c (born bevs u n) = idle refl refl refl refl refl (new_mass-IsSound (G.get u) n)
  Lived-IsValid d (after c _ reply rand e l g r h) =
      elim (happen-Sound reply rand g e c r (Lived-IsValid c l)) [
        | safe d' h' v ↦ subst {A = Con E} (IsValid (Sound G)) (ok_same h' h) v
      ]

  -- After any sequence of events from the construction (ConnectInit, the event callback, a message
  -- of the peer, the time of the timer), the next one ends without a fault, so no assertion of the
  -- class fails, and a timer that runs before the event runs after it. This is where, at each event,
  -- event_new gives an event and event_add takes it; a new socket is not descriptor 0; events are
  -- reported before bufferevent_socket_connect returns only for an attempt that fails, and are not
  -- BEV_EVENT_CONNECTED; that is reported only for a bufferevent that is there; and each message of
  -- the peer has four bytes, as OnRecv asserts.
  pub happen-Lived :
      (reply : Reply) (rand : ℕ) (e : Event E) (c : Con E)
      → Lived G c
      → IsGiving reply
      → Ready e c
      → Safe
          (λ d. Lived G d × (Runs (G.get c.user) → Runs (G.get d.user)))
          (happen G reply rand e c)
  happen-Lived reply rand e c l g r =
      let v = Lived-IsValid c l in
      elim (user_kept (Sound G) c v) [
        | fresh s o ↦ elim (happen-Sound reply rand g e c r v) [
          | safe d h w ↦
              safe d h (
                after c d reply rand e l g r h,
                λ y. absurd (idle_waits (G.get c.user).m_timer s y),
              )
        ]
        | going m ↦ elim (happen-Going reply rand g e c r (Going-IsValid c v m)) [
          | safe d h w ↦
              safe d h
                (after c d reply rand e l g r h, λ y. (user_kept (Going G wait_time_out) d w).runs)
        ]
      ]
