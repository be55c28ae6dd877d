-- ===== src/Con/Sending/Reliable.antt =====
-- Sending where libevent takes every write, and the backlog is within the limit.
use libevent_cpp.Prelude.{
  ℕ, ◌≤◌, ◌≡◌, refl, ap, sym, ◌∙◌, ◌⊎◌, inl, inr, true, some, List, ◌++◌, arith, length,
  append_assoc,
}
use libevent_cpp.Prelude.Outcome.{ok}
use libevent_cpp.Bytes.{store_u32, auto_hton32}
use libevent_cpp.Env.{Env}
use libevent_cpp.Con.{Con, Handlers, put}
use libevent_cpp.Con.Frames.{frame}
use libevent_cpp.Con.Framing.{IsPayload}
use libevent_cpp.Con.Receive.{Holds, pack}
use libevent_cpp.Con.Serving.{IsSame}
use libevent_cpp.Con.Send.{write_frame, checked, send_data_pack}
use libevent_cpp.Con.Sending.{
  IsUp, HasRoom, bufferevent_write_live, put_live, put-IsUp, send_pack_string-checked, checked-room,
  send_data_pack-eq-send_pack,
}

-- bufferevent_write returns 0, and a bufferevent has an output evbuffer.
pub record Reliable (E : Env) : Type 0 where
  pub write_lem : (b : E.Bev) (xs : List ℕ) → (E.write b xs).1 ≡ true
  pub output_length_some : (b : E.Bev) → (n : ℕ) × (E.output_length b ≡ some n)

module _ {E : Env} where
  -- What a send that is taken leaves: the frame of `m` in the output, and all else as it was.
  pub record Took (bev : ℕ) (c : Con E) (b : E.Bev) (m : List ℕ) (c' : Con E) (b' : E.Bev)
      : Type 0 where
    pub up : IsUp bev c' b'
    pub input_same : E.input b' ≡ E.input b
    pub output_more : E.output b' ≡ E.output b ++ frame m
    pub user_same : c'.user ≡ c.user
    pub limit_same : c'.m_msbs ≡ c.m_msbs
    pub mode_same : IsSame c' c
    pub pack_len_same : c'.m_rev_pack_len ≡ c.m_rev_pack_len

  pub write_frame-Took :
      (bev : ℕ) (m : List ℕ) (c : Con E) (b : E.Bev)
      → Reliable E
      → IsUp bev c b
      → (c' : Con E) × (b' : E.Bev) × (write_frame bev (length m) m c ≡ ok (c', true))
        × Took bev c b m c' b'
  unfolding write_frame frame put
  write_frame-Took bev m c b rel v =
      let h = store_u32 (auto_hton32 (length m)) in
      let b1 = (E.write b h).0 in
      let c1 = put bev b1 c in
      let up1 = put-IsUp bev b b1 c v in
      let b2 = (E.write b1 m).0 in
      let first = bufferevent_write_live bev h c b v.live in
      let second = bufferevent_write_live bev m c1 b1 (put_live bev b1 c) in
      (
        put bev b2 c1,
        b2,
        rw (first, rel.write_lem b h, second, rel.write_lem b1 m) refl,
        record {
          up = put-IsUp bev b1 b2 c1 up1;
          input_same = E.input-write b1 m ∙ E.input-write b h;
          output_more =
              E.output-write b1 m (rel.write_lem b1 m)
              ∙ ap (λ xs. xs ++ m) (E.output-write b h (rel.write_lem b h))
              ∙ append_assoc (E.output b) h m;
          user_same = refl;
          limit_same = refl;
          mode_same = (refl, refl);
          pack_len_same = refl;
        },
      )

  -- A send leaves what was received alone.
  pub Took-Holds :
      (bev : ℕ) (c : Con E) (b : E.Bev) (m p : List ℕ) (c' : Con E) (b' : E.Bev)
      → Holds bev c b p
      → Took bev c b m c' b'
      → Holds bev c' b' p
  Took-Holds bev c b m p c' b' v t = record {
    live = t.up.live;
    is_open = t.up.is_open;
    framed = t.mode_same.0 ∙ v.framed;
    alive = t.mode_same.1 ∙ v.alive;
    bytes = v.bytes;
    small = v.small;
    image = rw (t.pack_len_same, t.input_same) v.image;
  }

  pub room-Reliable :
      (c : Con E) (b : E.Bev)
      → Reliable E
      → (c.m_msbs ≡ 0) ⊎ (length (E.output b) ≤ c.m_msbs)
      → HasRoom c b
  room-Reliable c b rel h = record {
    room = elim h [
      | inl e ↦ inl e
      | inr l ↦
          let (n, e) = rel.output_length_some b in
          inr (n, e, omega (arith, E.output_length_lem b n e))
    ];
  }

  -- The guards of SendData let a payload through.
  pub send_data_pack-checked :
      (U : Handlers E) (bev : ℕ) (m : List ℕ) (c : Con E) (b : E.Bev)
      → IsUp bev c b
      → IsPayload m
      → send_data_pack U (pack m) c ≡ checked U bev (write_frame bev (length m) m) c
  send_data_pack-checked U bev m c b v pay =
      let same = send_data_pack-eq-send_pack U m c pay in
      same.0 ∙ sym same.1 ∙ send_pack_string-checked U bev m c b v pay

  -- A send of a payload is taken.
  pub send_data_pack-Took :
      (U : Handlers E) (bev : ℕ) (m : List ℕ) (c : Con E) (b : E.Bev)
      → Reliable E
      → IsUp bev c b
      → IsPayload m
      → (c.m_msbs ≡ 0) ⊎ (length (E.output b) ≤ c.m_msbs)
      → (c' : Con E) × (b' : E.Bev) × (send_data_pack U (pack m) c ≡ ok (c', true))
        × Took bev c b m c' b'
  send_data_pack-Took U bev m c b rel v pay room =
      let (c', b', run, took) = write_frame-Took bev m c b rel v in
      (
        c',
        b',
        send_data_pack-checked U bev m c b v pay
            ∙ checked-room U bev (write_frame bev (length m) m) c b v (room-Reliable c b rel room)
            ∙ run,
        took,
      )
