-- ===== src/Con/Keeping.antt =====
-- A connection whose OnRecv never drops it: what the session does to the user's state.
use libevent_cpp.Prelude.{
  ℕ, ◌+◌, ◌^◌, ◌<◌, ◌≡◌, refl, ap, sym, ◌∙◌, false, some, List, [], ◌∷◌, ◌++◌, length,
}
use libevent_cpp.Prelude.Int.{is_zero}
use libevent_cpp.Prelude.Outcome.{ok}
use libevent_cpp.Bytes.{AllBytes}
use libevent_cpp.Env.{Env}
use libevent_cpp.Con.{Con, Handlers, MsgPack}
use libevent_cpp.Con.Frames.{stopped, unframe, frame_all}
use libevent_cpp.Con.Framing.{AllPayloads}
use libevent_cpp.Con.Receive.{Holds, pack}
use libevent_cpp.Con.Serving.{Contract, keeps, IsSame}
use libevent_cpp.Con.Session.{flatten, session, still, ended, session-Lasts, session_frames}

-- The effect of a list of messages, in order, on the user's state.
abbrev pub deliver_all {ℓ} : {A : Type ℓ} → (MsgPack → A → A) → A → List (List ℕ) → A
deliver_all recv u [] = u
deliver_all recv u (m ∷ ms) = deliver_all recv (recv (pack m) u) ms

pub deliver_all-append {ℓ} :
    {A : Type ℓ} (recv : MsgPack → A → A) (u : A) (ms ns : List (List ℕ))
    → deliver_all recv u (ms ++ ns) ≡ deliver_all recv (deliver_all recv u ms) ns
deliver_all-append recv u [] ns = refl
deliver_all-append recv u (m ∷ ms) ns = deliver_all-append recv (recv (pack m) u) ms ns

-- The callback takes a message, whatever else it does, and leaves the connection open and the
-- received bytes alone: sending is allowed, closing the connection or deleting the object is not. `recv` is its effect on
-- the user's state.
pub record Serves {E : Env} (U : Handlers E) (bev : ℕ) (recv : MsgPack → E.User → E.User)
    : Type 0 where
  pub on_recv_lem :
      (m : MsgPack) (c : Con E) (b : E.Bev)
      → c.bevs bev ≡ some b
      → is_zero c.m_fd ≡ false
      → (c' : Con E) × (b' : E.Bev) × (U.on_recv m c ≡ ok c')
        × (c'.bevs bev ≡ some b')
        × (E.input b' ≡ E.input b)
        × (is_zero c'.m_fd ≡ false)
        × IsSame c' c
        × (c'.user ≡ recv m c.user)

module _ {E : Env} (U : Handlers E) (bev : ℕ) (recv : MsgPack → E.User → E.User)
    (s : Serves U bev recv) where
  -- From the user's state `u` on, the state is the effect of the messages.
  abbrev pub keeping : E.User → Contract U bev
  keeping u = record {
    After = λ ms c b. c.user ≡ deliver_all recv u ms;
    Closed = λ ms c. ⊥;
    Can = λ ms. Unit {0};
    Can-prefix = λ ms ns h. tt;
    After-IsStable = λ ms c b n b' freed h same. h;
    on_recv_lem = λ ms m c b h live is_open pay can.
        let (c1, b1, run, live1, same, open1, mode, effect) =
          s.on_recv_lem (pack m) c b live is_open in
        keeps c1 b1 run live1 same open1 mode
          (effect ∙ ap (recv (pack m)) h ∙ sym (deliver_all-append recv u ms (m ∷ [])));
  }

  -- Reassembly. On an open connection whose OnRecv leaves it open, and which holds no whole message,
  -- however the bytes of a stream (less than 2^31, with no bad length) are cut into pieces, the
  -- connection delivers the whole messages of the stream, in order, and keeps what is left over.
  session-unframe :
      (xss : List (List ℕ)) (c : Con E) (b : E.Bev) (p : List ℕ)
      → Holds bev c b p
      → unframe p ≡ stopped p false
      → AllBytes (flatten xss)
      → length p + length (flatten xss) < 2 ^ 31
      → (unframe (p ++ flatten xss)).bad ≡ false
      → (c' : Con E) × (b' : E.Bev) × (session U bev xss c ≡ ok c')
        × Holds bev c' b' (unframe (p ++ flatten xss)).rest
        × (c'.user ≡ deliver_all recv c.user (unframe (p ++ flatten xss)).msgs)
  session-unframe xss c b p v idle h small good =
      elim (session-Lasts U bev (keeping c.user) xss [] c b p v refl tt idle h small good) [
        | still c' b' e v' f ↦ (c', b', e, v', f)
        | ended c' ms later split e gone closed ↦ absurd closed
      ]

  -- What the peer frames (payloads of 1 to MAX_MSG_DATA_LEN bytes, less than 2^31 bytes in all), and
  -- the network cuts up as it likes, is received as it was sent by an open connection whose
  -- OnRecv leaves it open: every message once, whole and in order, and nothing else.
  pub session-frame_all :
      (ms xss : List (List ℕ)) (c : Con E) (b : E.Bev)
      → Holds bev c b []
      → AllPayloads ms
      → flatten xss ≡ frame_all ms
      → AllBytes (flatten xss)
      → length (flatten xss) < 2 ^ 31
      → (c' : Con E) × (b' : E.Bev) × (session U bev xss c ≡ ok c')
        × Holds bev c' b' []
        × (c'.user ≡ deliver_all recv c.user ms)
  session-frame_all ms xss c b v pay e bytes small =
      elim (session_frames U bev (keeping c.user) ms xss [] c b v refl tt pay e bytes small) [
        | still c' b' run v' f ↦ (c', b', run, v', f)
        | ended c' ns later split run gone closed ↦ absurd closed
      ]
