-- ===== src/Trials/Flood.antt =====
-- test/combine2: a server that answers a message with a thousand, and a client that drops its
-- connection at the first of them. A failed UNIT_ASSERT throws in a callback of libevent, where
-- nothing catches it.
pub mod Once
pub mod Run
pub mod Sends
use libevent_cpp.Prelude.{ℕ, zero, suc, Bool, true, false, List, [], ◌∷◌, ◌≡◌, if◌then◌else◌}
use libevent_cpp.Prelude.Int.{pos}
use libevent_cpp.Prelude.Outcome.{Outcome, ok, fault, Fault, ◌>>=◌}
use libevent_cpp.Env.{Env}
use libevent_cpp.Con.{Con, Handlers, MsgPack, disconnect}
use libevent_cpp.Con.Send.{send_pack_string}
use libevent_cpp.Listener.{Manages, svr_handlers}
use libevent_cpp.Samples.Server.{plain}

-- Where the user's state of a connection keeps a member of its class.
pub record Member (User A : Type 0) : Type 0 where
  pub get : User → A
  pub set : A → User → User
  pub get-set : (a : A) (u : User) → get (set a u) ≡ a

-- string(n, 1).
unfoldable pub ones : ℕ → List ℕ
ones zero = []
ones (suc n) = 1 ∷ ones n

-- "abc"
abbrev pub abc : List ℕ
abc = 97 ∷ 98 ∷ 99 ∷ []

module _ {E : Env} where
  -- `for (i = 0; i < 1000; ++i) SendPack(send_str);`, of which the results are not looked at.
  unfoldable pub send_times : Handlers E → ℕ → List ℕ → Con E → Outcome (Con E)
  send_times U zero str c = ok c
  send_times U (suc n) str c = send_pack_string U str c >>= λ r. send_times U n str r.0

  -- Connect2Client::OnRecv. It logs the message before it sends.
  unfoldable pub flood_on_recv : Manages (E.User) → ℕ → MsgPack → Con E → Outcome (Con E)
  unfolding send_times ones
  flood_on_recv M id msg c = send_times (svr_handlers M id plain) 1000 (ones 1000) c

  unfoldable pub flood : Manages (E.User) → ℕ → Handlers E
  flood M id = svr_handlers M id (record plain { on_recv = flood_on_recv M id })

  module _ (F : Member (E.User) Bool) where
    -- ReConClient::OnRecv, with its member m_is_discon.
    unfoldable pub re_con_on_recv : MsgPack → Con E → Outcome (Con E)
    re_con_on_recv msg c =
        if F.get c.user
        then fault Fault.uncaught_exception
        else (disconnect plain c >>= λ c'. ok (record c' { user = F.set true c'.user }))

    unfoldable pub re_con_on_connected : Con E → Outcome (Con E)
    re_con_on_connected c = send_pack_string plain abc c >>= λ r. ok r.0

    unfoldable pub re_con : Handlers E
    re_con = record plain { on_recv = re_con_on_recv; on_connected = re_con_on_connected }
