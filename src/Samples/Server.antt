-- ===== src/Samples/Server.antt =====
-- samples/server_prj/main.cc: the class Connect2Client, which sends back each message that it gets,
-- and drops the connection after one that says "del". The lines that it logs are left out.
use libevent_cpp.Prelude.{ℕ, true, Option, none, some, List, [], ◌∷◌, if◌then◌else◌}
use libevent_cpp.Prelude.Int.{pos}
use libevent_cpp.Prelude.Outcome.{Outcome, ok, ◌>>=◌}
use libevent_cpp.Env.{Env}
use libevent_cpp.Con.{Con, Handlers, MsgPack, deref, set_event_cb_log}
use libevent_cpp.Con.Send.{send_data_pack}
use libevent_cpp.Listener.{Manages, svr_handlers, svr_disconnect}
use libevent_cpp.Samples.{str2msg_pack, c_string, same_text}

-- "del" and "s".
abbrev pub del_text : List ℕ
del_text = 100 ∷ 101 ∷ 108 ∷ []

abbrev pub hello_text : List ℕ
hello_text = 115 ∷ []

module _ {E : Env} where
  -- A message lies in the input of the bufferevent that the connection had when OnRecv was called;
  -- it is read again later.
  unfoldable pub read_again : Option ℕ → Con E → Outcome (Con E)
  unfolding deref
  read_again none c = ok c
  read_again (some bev) c = deref bev c >>= λ b. ok c

  -- The bodies that ConCom gives. The pure methods, which a derived class replaces, do nothing here.
  abbrev pub plain : Handlers E
  plain = record {
    on_recv = λ m c. ok c;
    on_connected = λ c. ok c;
    on_error = λ e c. ok c;
    on_disconnected = λ c. ok c;
    on_raw_recv = λ p n c. ok (c, pos 0);
  }

  module _ (M : Manages (E.User)) (id : ℕ) where
    -- The log reads the text, SendData may drop the connection, and the text is read again.
    unfoldable pub server_on_recv : MsgPack → Con E → Outcome (Con E)
    unfolding read_again
    server_on_recv msg c = c_string msg.data_bytes >>= λ s.
        send_data_pack (svr_handlers M id plain) msg c >>= λ r. read_again c.m_buf_e r.0 >>= λ c1.
        if same_text s del_text then (svr_disconnect M id plain c1 >>= λ d. ok d.0) else ok c1

    unfoldable pub server_on_connected : Con E → Outcome (Con E)
    server_on_connected c =
        let c1 = set_event_cb_log true c in
        str2msg_pack hello_text >>= λ msg.
        send_data_pack (svr_handlers M id plain) msg c1 >>= λ r. ok r.0

    unfoldable pub server : Handlers E
    server =
        svr_handlers M id
          (record plain { on_recv = server_on_recv; on_connected = server_on_connected })
