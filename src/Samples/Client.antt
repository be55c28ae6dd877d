-- ===== src/Samples/Client.antt =====
-- samples/client_prj/main.cc: the class MyConnectClient, which sends one message when it is
-- connected, and prints those that it gets. `say` is what the log does with a text that it prints.
use libevent_cpp.Prelude.{ℕ, List, [], ◌∷◌}
use libevent_cpp.Prelude.Int.{pos}
use libevent_cpp.Prelude.Outcome.{Outcome, ok, ◌>>=◌}
use libevent_cpp.Env.{Env}
use libevent_cpp.Con.{Con, Handlers, MsgPack}
use libevent_cpp.Con.Send.{send_data_pack}
use libevent_cpp.Samples.{str2msg_pack, c_string}

-- "1 msg" and "disconnect".
abbrev pub first_text : List ℕ
first_text = 49 ∷ 32 ∷ 109 ∷ 115 ∷ 103 ∷ []

abbrev pub disconnect_text : List ℕ
disconnect_text = 100 ∷ 105 ∷ 115 ∷ 99 ∷ 111 ∷ 110 ∷ 110 ∷ 101 ∷ 99 ∷ 116 ∷ []

module _ {E : Env} (say : List ℕ → E.User → E.User) where
  unfoldable pub client_on_recv : MsgPack → Con E → Outcome (Con E)
  client_on_recv msg c = c_string msg.data_bytes >>= λ s. ok (record c { user = say s c.user })

  unfoldable pub client_on_disconnected : Con E → Outcome (Con E)
  client_on_disconnected c = ok (record c { user = say disconnect_text c.user })

  -- All but OnConnected, which no send calls.
  unfoldable pub client_other : Handlers E
  client_other = record {
    on_recv = client_on_recv;
    on_connected = λ c. ok c;
    on_error = λ e c. ok c;
    on_disconnected = client_on_disconnected;
    on_raw_recv = λ p n c. ok (c, pos 0);
  }

  unfoldable pub client_on_connected : Con E → Outcome (Con E)
  client_on_connected c =
      str2msg_pack first_text >>= λ msg. send_data_pack client_other msg c >>= λ r. ok r.0

  unfoldable pub client : Handlers E
  unfolding client_other
  client = record client_other { on_connected = client_on_connected }
