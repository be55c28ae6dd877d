-- ===== src/Trials/Flood/Sends.antt =====
-- test/combine2, Connect2Client: a thousand messages in one go.
use native.Mathlib.Nat.{suc-mul}
use libevent_cpp.Prelude.{
  ℕ, zero, suc, ◌+◌, ◌*◌, ◌≤◌, ◌≡◌, refl, ap, sym, ◌∙◌, ◌⊎◌, inl, inr, true, List, [], ◌∷◌, ◌++◌,
  arith, length, length-append, append_assoc, append-nil,
}
use libevent_cpp.Prelude.Outcome.{ok}
use libevent_cpp.Bytes.{store_u32, auto_hton32, length-store_u32}
use libevent_cpp.Env.{Env}
use libevent_cpp.Con.{Con, Handlers, MsgPack, max_max_send_buf_size}
use libevent_cpp.Con.Frames.{frame, frame_all}
use libevent_cpp.Con.Framing.{IsPayload}
use libevent_cpp.Con.Send.{write_frame, send_pack_string}
use libevent_cpp.Con.Serving.{IsSame}
use libevent_cpp.Con.Sending.{IsUp, checked-room, send_pack_string-checked}
use libevent_cpp.Con.Sending.Reliable.{Reliable, Took, write_frame-Took, room-Reliable}
use libevent_cpp.Listener.{Manages, svr_handlers}
use libevent_cpp.Samples.Echo.{Fits}
use libevent_cpp.Samples.Server.{plain}
use libevent_cpp.Trials.Flood.{ones, send_times, flood, flood_on_recv}

abbrev pub times : ℕ → List ℕ → List (List ℕ)
times zero m = []
times (suc n) m = m ∷ times n m

pub length-ones : (n : ℕ) → length (ones n) ≡ n
unfolding ones
length-ones zero = refl
length-ones (suc n) = omega (arith, length-ones n)

pub length-frame_all-times :
    (n : ℕ) (m : List ℕ) → length (frame_all (times n m)) ≡ n * (4 + length m)
unfolding frame_all frame
length-frame_all-times zero m = omega arith
length-frame_all-times (suc n) m = omega (
  arith,
  length-append (frame m) (frame_all (times n m)),
  length-append (store_u32 (auto_hton32 (length m))) m,
  length-store_u32 (auto_hton32 (length m)),
  length-frame_all-times n m,
  suc-mul n (4 + length m),
)

-- A thousand messages of a thousand bytes are within the limit of a new connection.
thousand_fit : Fits 1048576 [] (times 1000 (ones 1000))
thousand_fit = inr (omega (arith, length-frame_all-times 1000 (ones 1000), length-ones 1000))

module _ {E : Env} (U : Handlers E) (bev : ℕ) where
  -- A SendPack of a payload within the limit is taken.
  pub send_pack_string-Took :
      (m : List ℕ) (c : Con E) (b : E.Bev)
      → Reliable E
      → IsUp bev c b
      → IsPayload m
      → (c.m_msbs ≡ 0) ⊎ (length (E.output b) ≤ c.m_msbs)
      → (c' : Con E) × (b' : E.Bev) × (send_pack_string U m c ≡ ok (c', true))
        × Took bev c b m c' b'
  send_pack_string-Took m c b rel v pay room =
      let (c', b', run, took) = write_frame-Took bev m c b rel v in
      (
        c',
        b',
        send_pack_string-checked U bev m c b v pay
            ∙ checked-room U bev (write_frame bev (length m) m) c b v (room-Reliable c b rel room)
            ∙ run,
        took,
      )

  -- What `n` sends of `m` leave: their frames in the output, and all else as it was.
  pub record Sent (n : ℕ) (m : List ℕ) (c : Con E) (b : E.Bev) (c' : Con E) (b' : E.Bev)
      : Type 0 where
    pub up : IsUp bev c' b'
    pub input_same : E.input b' ≡ E.input b
    pub output_more : E.output b' ≡ E.output b ++ frame_all (times n m)
    pub user_same : c'.user ≡ c.user
    pub limit_same : c'.m_msbs ≡ c.m_msbs
    pub mode_same : IsSame c' c

  pub send_times-Sent :
      (n : ℕ) (m : List ℕ) (c : Con E) (b : E.Bev)
      → Reliable E
      → IsUp bev c b
      → IsPayload m
      → Fits c.m_msbs (E.output b) (times n m)
      → (c' : Con E) × (b' : E.Bev) × (send_times U n m c ≡ ok c') × Sent n m c b c' b'
  unfolding send_times frame_all
  send_times-Sent zero m c b rel v pay room = (
    c,
    b,
    refl,
    record {
      up = v;
      input_same = refl;
      output_more = sym (append-nil (E.output b));
      user_same = refl;
      limit_same = refl;
      mode_same = (refl, refl);
    },
  )
  send_times-Sent (suc n) m c b rel v pay room =
      let rest = frame_all (times n m) in
      let first : (c.m_msbs ≡ 0) ⊎ (length (E.output b) ≤ c.m_msbs) = elim room [
        | inl e ↦ inl e
        | inr h ↦ inr (omega (arith, h, length-append (E.output b) (frame m ++ rest)))
      ] in
      let (c1, b1, run1, t) = send_pack_string-Took m c b rel v pay first in
      let more : E.output b1 ++ rest ≡ E.output b ++ (frame m ++ rest) =
        ap (λ xs. xs ++ rest) t.output_more ∙ append_assoc (E.output b) (frame m) rest in
      let (c2, b2, run2, s) =
        send_times-Sent n m c1 b1 rel t.up pay (rw (t.limit_same, more) room) in
      (
        c2,
        b2,
        rw run1 run2,
        record {
          up = s.up;
          input_same = s.input_same ∙ t.input_same;
          output_more = s.output_more ∙ more;
          user_same = s.user_same ∙ t.user_same;
          limit_same = s.limit_same ∙ t.limit_same;
          mode_same = (s.mode_same.0 ∙ t.mode_same.0, s.mode_same.1 ∙ t.mode_same.1);
        },
      )

module _ {E : Env} (M : Manages (E.User)) (id bev : ℕ) where
  -- Connect2Client::OnRecv, on a connection that is up with an empty output and the limit of the
  -- constructor, where libevent takes every write.
  pub flood_on_recv-Sent :
      (m : MsgPack) (c : Con E) (b : E.Bev)
      → Reliable E
      → IsUp bev c b
      → E.output b ≡ []
      → c.m_msbs ≡ max_max_send_buf_size
      → (c' : Con E) × (b' : E.Bev) × ((flood M id).on_recv m c ≡ ok c')
        × Sent (svr_handlers M id plain) bev 1000 (ones 1000) c b c' b'
  unfolding flood flood_on_recv svr_handlers
  flood_on_recv-Sent m c b rel v bare limit =
      send_times-Sent (svr_handlers M id plain) bev 1000 (ones 1000) c b rel v
        (record {
          nonempty = omega (arith, length-ones 1000);
          fits = omega (arith, length-ones 1000);
        })
        (rw (limit, bare) thousand_fit)
