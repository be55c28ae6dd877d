-- ===== src/Samples/RoundTrip.antt =====
-- samples/server_prj/main.cc and samples/client_prj/main.cc, both ends of one connection.
use libevent_cpp.Prelude.{
  ℕ, ◌^◌, ◌<◌, ◌≡◌, refl, ap, sym, ◌∙◌, true, false, some, List, [], ◌∷◌, ◌++◌, arith, length,
}
use libevent_cpp.Prelude.Outcome.{ok, ok_same}
use libevent_cpp.Bytes.{AllBytes}
use libevent_cpp.Env.{Env}
use libevent_cpp.Con.{Con, Handlers, MsgPack}
use libevent_cpp.Con.Frames.{frame, frame_all}
use libevent_cpp.Con.Framing.{AllPayloads}
use libevent_cpp.Con.Receive.{Holds}
use libevent_cpp.Con.Session.{flatten, session}
use libevent_cpp.Con.Keeping.{Serves, deliver_all, session-frame_all}
use libevent_cpp.Con.Sending.{IsUp, live_same}
use libevent_cpp.Con.Sending.Sequence.{send_all, send_all-frame_all}
use libevent_cpp.Con.Sending.Reliable.{Reliable}
use libevent_cpp.ConMgr.{find_conn}
use libevent_cpp.ConMgr.Owned
use libevent_cpp.Listener.{Manages}
use libevent_cpp.Samples.Echo.{AllTexts, any_del, Fits}
use libevent_cpp.Samples.Talk.{hello, serve_new, serve_new-hello}

-- Every message comes back. A client of any class whose OnRecv leaves the connection open, which is
-- up with an empty output, sends messages, which SendPack takes, and still holds no byte. The sample
-- server has a new connection, which is up and registered in a valid manager, with nothing in its
-- buffers, and libevent takes every write there. The messages are C strings, payloads, none of which
-- says "del", and all of whose answers fit in the server's send limit. Then, however the network cuts
-- the bytes of both directions (less than 2^31 each) into pieces, the client's OnRecv gets the
-- server's greeting and then each message, in order, and nothing else.
pub round_trip :
    (E F : Env) (M : Manages (E.User)) (id bev p x : ℕ) (V : Handlers F)
    (recv : MsgPack → F.User → F.User) (ms xss yss : List (List ℕ)) (c c' : Con E) (b b' : E.Bev)
    (d d' : Con F) (e e' : F.Bev)
    → Reliable E
    → Owned.IsValid (M.get c.user)
    → find_conn id (M.get c.user) ≡ some p
    → IsUp bev c b
    → Holds bev c b []
    → E.output b ≡ []
    → Fits c.m_msbs (frame hello) ms
    → AllPayloads ms
    → AllTexts ms
    → any_del ms ≡ false
    → IsUp x d e
    → F.output e ≡ []
    → send_all V ms d ≡ ok (d', true)
    → d'.bevs x ≡ some e'
    → flatten xss ≡ F.output e'
    → AllBytes (flatten xss)
    → length (flatten xss) < 2 ^ 31
    → serve_new M id bev xss c ≡ ok c'
    → c'.bevs bev ≡ some b'
    → flatten yss ≡ E.output b'
    → AllBytes (flatten yss)
    → length (flatten yss) < 2 ^ 31
    → Serves V x recv
    → Holds x d' e' []
    → (d2 : Con F) × (e2 : F.Bev) × (session V x yss d' ≡ ok d2)
      × Holds x d2 e2 []
      × (d2.user ≡ deliver_all recv d'.user (hello ∷ ms))
round_trip E F M id bev p x V recv ms xss yss c c' b b' d d' e e' rel owned found up held empty fits
      pay texts quiet up_d empty_d sends live_d cut bytes small served live back bytes' small'
      serves held_d =
    let (e1, up1, out1) = send_all-frame_all V x ms d d' e up_d pay sends in
    let same_e : e1 ≡ e' = live_same x d' d' e1 e' up1 refl live_d in
    let request : flatten xss ≡ frame_all ms =
      cut ∙ ap F.output (sym same_e) ∙ out1 ∙ ap (λ ys. ys ++ frame_all ms) empty_d in
    let (c2, b2, run, up2, answers) =
      serve_new-hello M id bev p ms xss c b rel owned found up held empty pay texts quiet fits
        request bytes small in
    let same_b : b2 ≡ b' = live_same bev c2 c' b2 b' up2 (ok_same run served) live in
    let answer : flatten yss ≡ frame_all (hello ∷ ms) = back ∙ ap E.output (sym same_b) ∙ answers in
    session-frame_all V x recv serves (hello ∷ ms) yss d' e' held_d
      (record { nonempty = omega arith; fits = omega arith }, pay) answer bytes' small'
