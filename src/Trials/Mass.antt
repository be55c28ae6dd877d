-- ===== src/Trials/Mass.antt =====
-- test/client_prj/main.cc, MyConnectClient: one of the clients of the mass test. Its timer calls
-- OnTimer again and again, which sends, drops the connection at random, or connects again. A failed
-- UNIT_ASSERT throws where nothing catches it. What rand() gives and what libevent answers are
-- arguments.
pub mod Invariant
pub mod Safety
pub mod History
pub mod Running
use libevent_cpp.Prelude.{
  ℕ, ◌+◌, ◌*◌, ◌%◌, ◌^◌, Bool, true, false, Option, none, some, List, if◌then◌else◌, ltb, ◌==◌,
}
use libevent_cpp.Prelude.Outcome.{Outcome, ok, fault, Fault, ◌>>=◌}
use libevent_cpp.Bytes.{store_u32}
use libevent_cpp.Env.{Env}
use libevent_cpp.Con.{Con, Handlers, MsgPack, disconnect, conn_event_callback}
use libevent_cpp.Con.Client.{Attempt, connect_init_ip, try_reconnect}
use libevent_cpp.Con.Receive.{pack}
use libevent_cpp.Con.Send.{send_data_pack}
use libevent_cpp.Timer.{Timer, Reply, start_timer, stop_timer, expire}
use libevent_cpp.Samples.Server.{plain}
use libevent_cpp.Trials.Flood.{Member}

pub data State : Type 0 where
  s_start s_connect s_dis_connect : State

-- The members of the class, the int m_cnt by its bits, and the two counters of the program, of type uint32.
pub record Mass : Type 0 where
  pub m_cnt : ℕ
  pub m_state : State
  pub m_timer : Timer
  pub total_rev_cnt : ℕ
  pub total_recon_cnt : ℕ

abbrev pub rand_send_interval : ℕ
rand_send_interval = 2 * 1000

-- OnTimer as a callback of the timer.
abbrev pub on_timer_id : ℕ
on_timer_id = 1

-- `ret = m_timer.StartTimer(rand() % Rand_SEND_INTERVAL_SEC, f); UNIT_ASSERT(true == ret);`
unfoldable pub start_checked : Reply → ℕ → Timer → Outcome Timer
start_checked reply rand t =
    start_timer reply (rand % rand_send_interval) on_timer_id false t >>= λ r.
    if r.1 then ok r.0 else fault Fault.uncaught_exception

module _ {E : Env} (G : Member (E.User) Mass) where
  abbrev pub with_mass : Mass → Con E → Con E
  with_mass k c = record c { user = G.set k c.user }

  unfoldable pub mass_on_recv : MsgPack → Con E → Outcome (Con E)
  mass_on_recv msg c =
      let k = G.get c.user in
      if msg.len == 4
      then ok (with_mass (record k { total_rev_cnt = (k.total_rev_cnt + 1) % 2 ^ 32 }) c)
      else fault Fault.uncaught_exception

  unfoldable pub mass_on_disconnected : Con E → Outcome (Con E)
  mass_on_disconnected c = ok (with_mass (record (G.get c.user) { m_state = s_dis_connect }) c)

  unfoldable pub mass_on_connected : Reply → ℕ → Con E → Outcome (Con E)
  unfolding start_checked
  mass_on_connected reply rand c =
      let k = G.get c.user in
      elim k.m_state [
        | s_start ↦ start_checked reply rand k.m_timer >>= λ t.
            ok (with_mass (record k { m_timer = t; m_state = s_connect }) c)
        | s_connect ↦ ok (with_mass (record k { m_state = s_connect }) c)
        | s_dis_connect ↦ ok (with_mass (record k { m_state = s_connect }) c)
      ]

  unfoldable pub mass : Reply → ℕ → Handlers E
  unfolding mass_on_recv mass_on_connected mass_on_disconnected
  mass reply rand = record plain {
    on_recv = mass_on_recv;
    on_connected = mass_on_connected reply rand;
    on_disconnected = mass_on_disconnected;
  }

  -- The timer is stopped and started again, at the end of OnTimer.
  unfoldable pub start_again : Reply → ℕ → Con E → Outcome (Con E)
  unfolding start_checked
  start_again reply rand c =
      let k = G.get c.user in
      start_checked reply rand (stop_timer k.m_timer).0 >>= λ t.
      ok (with_mass (record k { m_timer = t }) c)

  -- `draw` is the first rand() of OnTimer.
  unfoldable pub on_timer : Reply → ℕ → ℕ → Attempt E → Con E → Outcome (Con E)
  unfolding start_again
  on_timer reply rand draw attempt c =
      let k = G.get c.user in
      let n = (k.m_cnt + 1) % 2 ^ 32 in
      elim k.m_state [
        | s_start ↦ fault Fault.uncaught_exception
        | s_connect ↦
            if ltb (draw % 100) 10
            then (disconnect (mass reply rand) c >>= λ c1. start_again reply rand c1)
            else (send_data_pack (mass reply rand) (pack (store_u32 n))
                  (with_mass (record k { m_cnt = n }) c)
                >>= λ r. start_again reply rand r.0)
        | s_dis_connect ↦
            try_reconnect (mass reply rand) attempt
              (with_mass (record k { total_recon_cnt = (k.total_recon_cnt + 1) % 2 ^ 32 }) c)
            >>= λ r. start_again reply rand r.0
      ]

  -- The time of the timer comes, if it is pending: its callback is OnTimer.
  unfoldable pub time_comes : Reply → ℕ → ℕ → Attempt E → Con E → Outcome (Con E)
  unfolding on_timer
  time_comes reply rand draw attempt c =
      let k = G.get c.user in
      elim k.m_timer.m_event [
        | none ↦ ok c
        | some e ↦ elim e.pending [
          | none ↦ ok c
          | some tv ↦ expire k.m_timer >>= λ t.
              on_timer reply rand draw attempt (with_mass (record k { m_timer = t }) c)
        ]
      ]
