-- ===== src/Con/Sending/Raw.antt =====
-- src/connector.cc, SendData(const char *, int): bytes that carry no header of their own.
use libevent_cpp.Prelude.{
  ℕ, ◌+◌, ◌≤◌, ◌<◌, ◌^◌, ◌≡◌, refl, ap, sym, ◌∙◌, ◌⊎◌, inl, inr, true, some, List, [], ◌∷◌, ◌++◌,
  arith, length, length-append, take_all, append_assoc, append-nil,
}
use libevent_cpp.Prelude.Int.{pos, to_size}
use libevent_cpp.Prelude.Outcome.{Outcome, ok, ◌>>=◌}
use libevent_cpp.Bytes.{AllBytes}
use libevent_cpp.Env.{Env}
use libevent_cpp.Con.{Con, Handlers, MsgPack, put}
use libevent_cpp.Con.Frames.{frame_all}
use libevent_cpp.Con.Framing.{AllPayloads}
use libevent_cpp.Con.Keeping.{Serves, deliver_all, session-frame_all}
use libevent_cpp.Con.Receive.{Holds}
use libevent_cpp.Con.Send.{bufferevent_write, checked, send_data_raw}
use libevent_cpp.Con.Sending.{IsUp, bufferevent_write_live, put-IsUp, checked-room}
use libevent_cpp.Con.Sending.Reliable.{Reliable, room-Reliable}
use libevent_cpp.Con.Session.{flatten, session}

module _ {E : Env} (U : Handlers E) where
  -- One call for each piece, with its length.
  unfoldable pub send_raw_all : List (List ℕ) → Con E → Outcome (Con E)
  send_raw_all [] c = ok c
  send_raw_all (xs ∷ xss) c =
      send_data_raw U (some xs) (pos (length xs)) c >>= λ r. send_raw_all xss r.0

  send_data_raw-checked :
      (bev : ℕ) (xs : List ℕ) (c : Con E) (b : E.Bev)
      → IsUp bev c b
      → send_data_raw U (some xs) (pos (length xs)) c ≡ checked U bev (bufferevent_write bev xs) c
  unfolding send_data_raw to_size
  send_data_raw-checked bev xs c b v =
      ground (arith, take_all (length xs) xs, v.attached, v.is_open, v.connected)

  -- A piece goes to the output as it is.
  send_data_raw-up :
      (bev : ℕ) (xs : List ℕ) (c : Con E) (b : E.Bev)
      → Reliable E
      → IsUp bev c b
      → (c.m_msbs ≡ 0) ⊎ (length (E.output b) ≤ c.m_msbs)
      → send_data_raw U (some xs) (pos (length xs)) c ≡ ok (put bev (E.write b xs).0 c, true)
  send_data_raw-up bev xs c b rel v room =
      send_data_raw-checked bev xs c b v
      ∙ checked-room U bev (bufferevent_write bev xs) c b v (room-Reliable c b rel room)
      ∙ bufferevent_write_live bev xs c b v.live
      ∙ rw (rel.write_lem b xs) refl

  -- All pieces, one behind the other.
  send_raw_all-IsUp :
      (bev : ℕ) (xss : List (List ℕ)) (c : Con E) (b : E.Bev)
      → Reliable E
      → IsUp bev c b
      → (c.m_msbs ≡ 0) ⊎ (length (E.output b) + length (flatten xss) ≤ c.m_msbs)
      → (c' : Con E) × (b' : E.Bev) × (send_raw_all xss c ≡ ok c')
        × IsUp bev c' b'
        × (E.output b' ≡ E.output b ++ flatten xss)
  unfolding send_raw_all put
  send_raw_all-IsUp bev [] c b rel v room = (c, b, refl, v, sym (append-nil (E.output b)))
  send_raw_all-IsUp bev (xs ∷ xss) c b rel v room =
      let b1 = (E.write b xs).0 in
      let c1 = put bev b1 c in
      let out : E.output b1 ≡ E.output b ++ xs = E.output-write b xs (rel.write_lem b xs) in
      let now : (c.m_msbs ≡ 0) ⊎ (length (E.output b) ≤ c.m_msbs) = elim room [
        | inl z ↦ inl z
        | inr l ↦ inr (omega (arith, length-append xs (flatten xss)))
      ] in
      let later : (c.m_msbs ≡ 0) ⊎ (length (E.output b1) + length (flatten xss) ≤ c.m_msbs) =
        elim room [
          | inl z ↦ inl z
          | inr l ↦ inr (
              omega (
                arith,
                length-append xs (flatten xss),
                length-append (E.output b) xs,
                ap length out,
              ))
        ] in
      let (c', b', run, up, more) =
        send_raw_all-IsUp bev xss c1 b1 rel (put-IsUp bev b b1 c v) later in
      (
        c',
        b',
        rw (send_data_raw-up bev xs c b rel v now) run,
        up,
        more ∙ ap (λ ys. ys ++ flatten xss) out ∙ append_assoc (E.output b) xs (flatten xss),
      )

-- Frames that are sent in raw pieces arrive as messages. An end that is up, with an empty output,
-- where libevent takes every write and the limit has room for all, sends the pieces one call each.
-- Then they lie in its output one behind the other; and where they make up the frames of messages,
-- less than 2^31 bytes in all, an open end with no byte waiting, whose OnRecv leaves the connection
-- open, gets these messages, whole and in order, and nothing else, however the network cuts the
-- bytes.
pub send_raw_all_arrives :
    (E F : Env) (U : Handlers E) (V : Handlers F) (x y : ℕ) (recv : MsgPack → F.User → F.User)
    (pieces ms xss : List (List ℕ)) (c : Con E) (b : E.Bev) (d : Con F) (e : F.Bev)
    → Reliable E
    → IsUp x c b
    → E.output b ≡ []
    → (c.m_msbs ≡ 0) ⊎ (length (flatten pieces) ≤ c.m_msbs)
    → flatten pieces ≡ frame_all ms
    → AllPayloads ms
    → flatten xss ≡ flatten pieces
    → AllBytes (flatten xss)
    → length (flatten xss) < 2 ^ 31
    → Serves V y recv
    → Holds y d e []
    → (c' : Con E) × (b' : E.Bev) × (send_raw_all U pieces c ≡ ok c')
      × (c'.bevs x ≡ some b')
      × (E.output b' ≡ flatten pieces)
      × (d' : Con F) × (e' : F.Bev) × (session V y xss d ≡ ok d')
      × Holds y d' e' []
      × (d'.user ≡ deliver_all recv d.user ms)
send_raw_all_arrives E F U V x y recv pieces ms xss c b d e rel v empty room make pay cut bytes
      small serves held =
    let room' : (c.m_msbs ≡ 0) ⊎ (length (E.output b) + length (flatten pieces) ≤ c.m_msbs) =
      elim room [ inl z ↦ inl z | inr l ↦ inr (omega (arith, ap length empty)) ] in
    let (c', b', run, up, out) = send_raw_all-IsUp U x pieces c b rel v room' in
    let (d', e', got, after, user) =
      session-frame_all V y recv serves ms xss d e held pay (cut ∙ make) bytes small in
    (c', b', run, up.live, out ∙ ap (λ ys. ys ++ flatten pieces) empty, d', e', got, after, user)
