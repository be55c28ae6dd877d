-- ===== src/Trials/Counting.antt =====
-- test/combine/echo_client.cc, MyConnectClient: it sends numbers to a server that sends them back,
-- and at the last of them erases itself from the map that it lies in. A failed UNIT_ASSERT throws in
-- a callback of libevent, where nothing catches it.
pub mod Answered
pub mod Last
use libevent_cpp.Prelude.{
  ℕ, ◌+◌, Bool, true, false, List, [], ◌∷◌, if◌then◌else◌, ltb, ◌==◌, length,
}
use libevent_cpp.Prelude.Outcome.{Outcome, ok, fault, Fault, ◌>>=◌}
use libevent_cpp.Bytes.{load_u32, store_u32}
use libevent_cpp.Env.{Env}
use libevent_cpp.Con.{Con, Handlers, MsgPack, delete_this}
use libevent_cpp.Con.Receive.{pack}
use libevent_cpp.Con.Send.{send_data_pack}
use libevent_cpp.Samples.Server.{plain}
use libevent_cpp.Trials.Flood.{Member}

-- The member m_cnt, and whether the object is in m2MyConnectClient, under 1.
pub record Counter : Type 0 where
  pub m_cnt : ℕ
  pub in_map : Bool

-- What it counts to.
abbrev pub last_cnt : ℕ
last_cnt = 3000

-- The number as it lies in memory, four bytes of the message.
abbrev pub number : ℕ → MsgPack
number n = pack (store_u32 n)

module _ {E : Env} (G : Member (E.User) Counter) where
  -- FreeMyConnectClient: `erase` deletes the object, if it is there.
  unfoldable pub free_my_connect_client : Con E → Outcome (Con E)
  free_my_connect_client c =
      let k = G.get c.user in
      if k.in_map
      then delete_this (record c { user = G.set (record k { in_map = false }) c.user })
      else ok c

  unfoldable pub send_cnt : Con E → Outcome (Con E)
  unfolding free_my_connect_client
  send_cnt c =
      let k = G.get c.user in
      let n = k.m_cnt + 1 in
      let c1 = record c { user = G.set (record k { m_cnt = n }) c.user } in
      if ltb n last_cnt
      then (send_data_pack plain (number n) c1 >>= λ r. ok r.0)
      else free_my_connect_client c1

  -- OnRecv reads an int at the start of the data.
  unfoldable pub count_on_recv : MsgPack → Con E → Outcome (Con E)
  unfolding send_cnt
  count_on_recv msg c =
      if ltb (length msg.data_bytes) 4
      then fault Fault.out_of_bounds
      else if load_u32 msg.data_bytes == (G.get c.user).m_cnt
      then (if msg.len == 4 then send_cnt c else fault Fault.uncaught_exception)
      else fault Fault.uncaught_exception

  unfoldable pub counting : Handlers E
  unfolding count_on_recv send_cnt
  counting = record plain { on_recv = count_on_recv; on_connected = send_cnt }
