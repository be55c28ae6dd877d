-- ===== src/Trials/Recon.antt =====
-- test/client_prj/main.cc, ClientReconByDel and ClientReconByDelCtr: a client that a looping timer
-- makes and deletes by turns. A failed UNIT_ASSERT throws where nothing catches it.
pub mod Created
pub mod Turns
pub mod History
use libevent_cpp.Prelude.{
  ℕ, ◌+◌, ◌*◌, ◌%◌, ◌^◌, Bool, true, false, Option, none, some, List, [], ◌∷◌, if◌then◌else◌, ◌==◌,
}
use libevent_cpp.Prelude.Outcome.{Outcome, ok, fault, Fault, ◌>>=◌}
use libevent_cpp.Bytes.{store_u32}
use libevent_cpp.Env.{Env}
use libevent_cpp.Con.{Con, Handlers, MsgPack, new_con, destroy_con, conn_event_callback}
use libevent_cpp.Con.Client.{Attempt, connect_init_ip}
use libevent_cpp.Con.Receive.{pack}
use libevent_cpp.Con.Send.{send_data_pack}
use libevent_cpp.Timer.{Timer, Reply, new_timer, start_timer, stop_timer, expire}
use libevent_cpp.Samples.Server.{plain}
use libevent_cpp.Trials.Flood.{Member}

-- The int m_cnt of the client by its bits, and the program's counter total_rev_cnt, of type uint32.
pub record Counted : Type 0 where
  pub m_cnt : ℕ
  pub total_rev_cnt : ℕ

abbrev pub recon_interval : ℕ
recon_interval = 2 * 1000

abbrev pub mass_con_svr_port : ℕ
mass_con_svr_port = 42011

-- "127.0.0.1"
abbrev pub local_ip : List ℕ
local_ip = 49 ∷ 50 ∷ 55 ∷ 46 ∷ 48 ∷ 46 ∷ 48 ∷ 46 ∷ 49 ∷ []

-- OnTimer as a callback of the timer.
abbrev pub ctr_on_timer_id : ℕ
ctr_on_timer_id = 1

-- The members of ClientReconByDelCtr, with the object that m_client points to. Between two clients,
-- `bevs` is the heap of the bufferevents and `last` holds what outlives a client.
pub record ClientReconByDelCtr (E : Env) : Type 0 where
  pub m_client : Option (Con E)
  pub m_timer : Timer
  pub bevs : ℕ → Option (E.Bev)
  pub last : E.User

module _ {E : Env} (G : Member (E.User) Counted) where
  unfoldable pub recon_on_recv : MsgPack → Con E → Outcome (Con E)
  recon_on_recv msg c =
      let k = G.get c.user in
      if msg.len == 4
      then ok (record c {
        user = G.set (record k { total_rev_cnt = (k.total_rev_cnt + 1) % 2 ^ 32 }) c.user;
      })
      else fault Fault.uncaught_exception

  unfoldable pub recon_on_connected : Con E → Outcome (Con E)
  recon_on_connected c =
      let k = G.get c.user in
      let n = (k.m_cnt + 1) % 2 ^ 32 in
      send_data_pack plain (pack (store_u32 n))
        (record c { user = G.set (record k { m_cnt = n }) c.user })
      >>= λ r. ok r.0

  unfoldable pub recon : Handlers E
  unfolding recon_on_recv recon_on_connected
  recon = record plain { on_recv = recon_on_recv; on_connected = recon_on_connected }

  unfoldable pub new_ctr : Reply → (ℕ → Option (E.Bev)) → E.User → Outcome (ClientReconByDelCtr E)
  new_ctr reply bevs last =
      start_timer reply recon_interval ctr_on_timer_id true (stop_timer new_timer).0 >>= λ r.
      if r.1
      then ok (record { m_client = none; m_timer = r.0; bevs = bevs; last = last })
      else fault Fault.uncaught_exception

  unfoldable pub create_client : Attempt E → ClientReconByDelCtr E → Outcome (ClientReconByDelCtr E)
  unfolding recon
  create_client t k = elim k.m_client [
    | some c ↦ fault Fault.uncaught_exception
    | none ↦
        let user = G.set (record (G.get k.last) { m_cnt = 0 }) k.last in
        connect_init_ip recon (some local_ip) mass_con_svr_port t (new_con E k.bevs user) >>= λ r.
        if r.1 then ok (record k { m_client = some r.0 }) else fault Fault.uncaught_exception
  ]

  unfoldable pub del_client : ClientReconByDelCtr E → Outcome (ClientReconByDelCtr E)
  del_client k = elim k.m_client [
    | none ↦ fault Fault.uncaught_exception
    | some c ↦
        destroy_con c >>= λ d. ok (record k { m_client = none; bevs = d.bevs; last = d.user })
  ]

  -- ~ClientReconByDelCtr: the timer is left out.
  unfoldable destroy_ctr : ClientReconByDelCtr E → Outcome (ClientReconByDelCtr E)
  unfolding del_client
  destroy_ctr k = elim k.m_client [ none ↦ ok k | some c ↦ del_client k ]

  unfoldable pub ctr_on_timer : Attempt E → ClientReconByDelCtr E → Outcome (ClientReconByDelCtr E)
  unfolding create_client del_client
  ctr_on_timer t k = elim k.m_client [ none ↦ create_client t k | some c ↦ del_client k ]

  -- The time of the timer comes, if it is pending: its callback is OnTimer.
  unfoldable pub ctr_time_comes :
      Attempt E → ClientReconByDelCtr E → Outcome (ClientReconByDelCtr E)
  unfolding ctr_on_timer
  ctr_time_comes t k = elim k.m_timer.m_event [
    | none ↦ ok k
    | some e ↦ elim e.pending [
      | none ↦ ok k
      | some tv ↦ expire k.m_timer >>= λ u. ctr_on_timer t (record k { m_timer = u })
    ]
  ]

  -- A message of the peer comes to the client, if there is one.
  unfoldable pub client_recv : MsgPack → ClientReconByDelCtr E → Outcome (ClientReconByDelCtr E)
  unfolding recon_on_recv
  client_recv msg k = elim k.m_client [
    | none ↦ ok k
    | some c ↦ recon_on_recv msg c >>= λ d. ok (record k { m_client = some d })
  ]

  -- libevent calls the event callback of the client, if there is one.
  unfoldable pub client_event : ℕ → ClientReconByDelCtr E → Outcome (ClientReconByDelCtr E)
  unfolding recon
  client_event events k = elim k.m_client [
    | none ↦ ok k
    | some c ↦ conn_event_callback recon events c >>= λ d. ok (record k { m_client = some d })
  ]
