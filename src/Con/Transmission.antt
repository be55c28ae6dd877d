-- ===== src/Con/Transmission.antt =====
-- Both ends of a connection: what one ConCom sends by SendPack is what the other hands to OnRecv.
use libevent_cpp.Prelude.{ℕ, ◌^◌, ◌<◌, ◌≡◌, sym, ◌∙◌, ap, true, some, List, [], ◌++◌, length}
use libevent_cpp.Prelude.Outcome.{ok}
use libevent_cpp.Bytes.{AllBytes}
use libevent_cpp.Env.{Env}
use libevent_cpp.Con.{Con, Handlers, MsgPack}
use libevent_cpp.Con.Framing.{AllPayloads}
use libevent_cpp.Con.Frames.{frame_all}
use libevent_cpp.Con.Receive.{Holds}
use libevent_cpp.Con.Session.{flatten, session}
use libevent_cpp.Con.Keeping.{Serves, deliver_all, session-frame_all}
use libevent_cpp.Con.Sending.{IsUp}
use libevent_cpp.Con.Sending.Sequence.{send_all, send_all-frame_all}

-- Messages of 1 to MAX_MSG_DATA_LEN bytes that SendPack took on one end, whose output was empty, arrive on the other, which is
-- open with no byte waiting, and whose OnRecv leaves the connection open: however the network cuts
-- the output, of less than 2^31 bytes, into pieces, OnRecv gets each message once, whole and in
-- order, and nothing else.
pub transmission :
    (E F : Env) (U : Handlers E) (V : Handlers F) (x y : ℕ) (recv : MsgPack → F.User → F.User)
    (ms xss : List (List ℕ)) (c c' : Con E) (b b' : E.Bev) (d : Con F) (e : F.Bev)
    → IsUp x c b
    → E.output b ≡ []
    → AllPayloads ms
    → send_all U ms c ≡ ok (c', true)
    → c'.bevs x ≡ some b'
    → flatten xss ≡ E.output b'
    → AllBytes (flatten xss)
    → length (flatten xss) < 2 ^ 31
    → Serves V y recv
    → Holds y d e []
    → (d' : Con F) × (e' : F.Bev) × (session V y xss d ≡ ok d')
      × Holds y d' e' []
      × (d'.user ≡ deliver_all recv d.user ms)
transmission E F U V x y recv ms xss c c' b b' d e up empty pay sends live cut bytes small serves
      held =
    let (b1, up1, out) = send_all-frame_all U x ms c c' b up pay sends in
    let same : some b1 ≡ some b' = sym up1.live ∙ live in
    let last : b1 ≡ b' = cc same in
    let whole : flatten xss ≡ frame_all ms =
      cut ∙ ap E.output (sym last) ∙ out ∙ ap (λ ys. ys ++ frame_all ms) empty in
    session-frame_all V y recv serves ms xss d e held pay whole bytes small
