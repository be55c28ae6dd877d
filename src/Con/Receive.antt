-- ===== src/Con/Receive.antt =====
-- What ConCom::conn_read_callback_no_cp does with the bytes that have arrived, round by round.
use libevent_cpp.Prelude.{
  Option, ℕ, ◌+◌, ◌^◌, ◌≤◌, ◌<◌, ◌≡◌, refl, ap, ◌∙◌, ◌⊎◌, inl, inr, true, false, some, List, ◌++◌,
  arith, length, take, drop, length-append, length-drop, length-take,
}
use libevent_cpp.Prelude.Int.{ℤ, pos, to_size, to_int_small, is_zero}
use libevent_cpp.Prelude.Outcome.{ok, ◌>>=◌}
use libevent_cpp.Bytes.{
  load_u32, store_u32, auto_ntoh32, wire_u32, AllBytes, ntoh-load_take, wire_u32-lt,
  load_u32-store_u32, drop-store_u32, take-store_u32, length-store_u32,
}
use libevent_cpp.Env.{Env}
use libevent_cpp.Con.{Con, Handlers, MsgPack, cast_pack, put, store, disconnect, update}
use libevent_cpp.Con.Frames.{bad_len}
use libevent_cpp.Con.Read.{returns, read_head, deliver, after_recv, read_body, read_round}

-- The bytes in memory, `xs`, as they stand for the stream `p`: while a message is incomplete its
-- header may be read already, and then lies in host order.
abbrev pub Image : ℕ → List ℕ → List ℕ → Type 0
Image n xs p =
    ((n ≡ 0) × (xs ≡ p))
    ⊎ ((n ≡ wire_u32 p) × (4 ≤ length p) × (bad_len n ≡ false) × (xs ≡ store_u32 n ++ drop 4 p))

Image-length : (n : ℕ) (xs p : List ℕ) → Image n xs p → length xs ≡ length p
Image-length n xs p (inl h) = ap length h.1
Image-length n xs p (inr h) = omega (
  arith,
  ap length h.3,
  length-append (store_u32 n) (drop 4 p),
  length-store_u32 n,
  length-drop 4 p,
)

module _ {E : Env} where
  -- The connection is open, `bev` is its live bufferevent with content `b`, and the bytes received
  -- and not yet delivered are `p`.
  pub record Holds (bev : ℕ) (c : Con E) (b : E.Bev) (p : List ℕ) : Type 0 where
    pub live : c.bevs bev ≡ some b
    pub is_open : is_zero c.m_fd ≡ false
    pub framed : c.m_is_raw_read_cb ≡ false
    pub alive : c.is_deleted ≡ false
    pub bytes : AllBytes p
    pub small : length p < 2 ^ 31
    pub image : Image c.m_rev_pack_len (E.input b) p

  -- The same, with the header of the stream read.
  pub record Headed (bev : ℕ) (c : Con E) (b : E.Bev) (p : List ℕ) : Type 0 where
    pub live : c.bevs bev ≡ some b
    pub is_open : is_zero c.m_fd ≡ false
    pub framed : c.m_is_raw_read_cb ≡ false
    pub alive : c.is_deleted ≡ false
    pub len : c.m_rev_pack_len ≡ wire_u32 p
    pub stored : E.input b ≡ store_u32 (wire_u32 p) ++ drop 4 p

  pub Holds-length :
      {bev : ℕ} {c : Con E} {b : E.Bev} {p : List ℕ} → Holds bev c b p → E.input_length b ≡ length p
  Holds-length {c = c} {b = b} {p = p} v =
      E.input_length_lem b ∙ Image-length c.m_rev_pack_len (E.input b) p v.image

  -- What holds of a connection whatever is read of its input.
  abbrev pub IsStable : ℕ → (Con E → E.Bev → Type 0) → Type 0
  IsStable bev P =
      (c : Con E) (b : E.Bev) (n : ℕ) (b' : E.Bev) (freed : ℕ → Option (E.Bev))
      → P c b
      → E.output b' ≡ E.output b
      → P (record c { m_rev_pack_len = n; bevs = update c.bevs bev (some b'); dying = freed }) b'

  pub read_head-Headed :
      (bev : ℕ) (P : Con E → E.Bev → Type 0) (c : Con E) (b : E.Bev) (p : List ℕ)
      → IsStable bev P
      → P c b
      → Holds bev c b p
      → 4 ≤ length p
      → (c' : Con E) × (b' : E.Bev) × (read_head bev b c ≡ ok c') × Headed bev c' b' p × P c' b'
  unfolding read_head store put
  read_head-Headed bev P c b p stable holds v h = elim v.image [
    | inl (z, e) ↦
        let n = wire_u32 p in
        let b' = E.overwrite b (store_u32 n) in
        let c' : Con E = record c { m_rev_pack_len = n; bevs = update c.bevs bev (some b') } in
        let mem : E.pullup b 4 ≡ some (take 4 (E.input b)) =
          E.pullup_lem b 4 (omega arith) (omega (arith, ap length e)) in
        let num : auto_ntoh32 (load_u32 (take 4 (E.input b))) ≡ n =
          rw e (ntoh-load_take p h v.bytes) in
        (
          c',
          b',
          ground (arith, mem, num),
          record {
            live = ground arith;
            is_open = v.is_open;
            framed = v.framed;
            alive = v.alive;
            len = refl;
            stored =
                E.input-overwrite b (store_u32 n) (omega (arith, ap length e, length-store_u32 n))
                ∙ ap (◌++◌ (store_u32 n)) (rw (length-store_u32 n, e));
          },
          stable c b n b' c.dying holds (E.output-overwrite b (store_u32 n)),
        )
    | inr (z, l, g, e) ↦ (
      c,
      b,
      ground arith,
      record {
        live = v.live;
        is_open = v.is_open;
        framed = v.framed;
        alive = v.alive;
        len = z;
        stored = rw z at e;
      },
      holds,
    )
  ]

  module _ (U : Handlers E) (bev : ℕ) where
    pub read_round-head :
        (c : Con E) (b : E.Bev) (p : List ℕ)
        → Holds bev c b p
        → 4 ≤ length p
        → read_round U bev c ≡ (read_head bev b c >>= λ c'. read_body U bev (pos (length p)) c')
    unfolding read_round
    read_round-head c b p v h =
        ground (arith, v.live, Holds-length v, to_int_small (length p) v.small)

    pub round_waits :
        (c : Con E) (b : E.Bev) (p : List ℕ)
        → Holds bev c b p
        → length p < 4
        → read_round U bev c ≡ ok (returns c)
    unfolding read_round
    round_waits c b p v h = ground (arith, v.live, Holds-length v, to_int_small (length p) v.small)

    pub read_body-bad :
        (c : Con E) (i : ℤ)
        → bad_len c.m_rev_pack_len ≡ true
        → read_body U bev i c ≡ (disconnect U c >>= λ c'. ok (returns c'))
    unfolding read_body
    read_body-bad c i h = rw h

    pub read_body-partial :
        (c : Con E) (n l : ℕ)
        → c.m_rev_pack_len ≡ n
        → bad_len n ≡ false
        → l < 4 + n
        → read_body U bev (pos l) c ≡ ok (returns c)
    unfolding read_body
    read_body-partial c n l e g h = ground (arith, to_int_small (n + 4) (ground arith))

    pub read_body-whole :
        (c : Con E) (n l : ℕ)
        → c.m_rev_pack_len ≡ n
        → bad_len n ≡ false
        → 4 + n ≤ l
        → read_body U bev (pos l) c ≡ deliver U bev (4 + n) c
    unfolding read_body to_size
    read_body-whole c n l e g h = ground (arith, to_int_small (n + 4) (ground arith))

-- What OnRecv is given for a message of data `m`.
abbrev pub pack : List ℕ → MsgPack
pack m = record { len = length m; data_bytes = m }

cast_pack-stored :
    (n : ℕ) (rest : List ℕ)
    → n < 2 ^ 32
    → n ≤ length rest
    → cast_pack (take (4 + n) (store_u32 n ++ rest)) ≡ pack (take n rest)
unfolding cast_pack
cast_pack-stored n rest h k =
    let l : length (take n rest) ≡ n = omega (arith, length-take n rest) in
    rw (take-store_u32 n n rest, load_u32-store_u32 n (take n rest) h, drop-store_u32, l)

module _ {E : Env} (U : Handlers E) (bev : ℕ) where
  -- A whole message is handed to OnRecv as it was sent, whatever OnRecv does.
  pub deliver_recv :
      (c : Con E) (b : E.Bev) (p : List ℕ)
      → Headed bev c b p
      → AllBytes p
      → 4 + wire_u32 p ≤ length p
      → deliver U bev (4 + wire_u32 p) c ≡ (
          U.on_recv (pack (take (wire_u32 p) (drop 4 p))) c >>= λ c'.
          after_recv U bev (4 + wire_u32 p) c')
  unfolding deliver
  deliver_recv c b p v bytes whole =
      let n = wire_u32 p in
      let m = pack (take n (drop 4 p)) in
      let stored : E.input b ≡ store_u32 n ++ drop 4 p = v.stored in
      let mem : E.pullup b (4 + n) ≡ some (take (4 + n) (E.input b)) =
        E.pullup_lem b (4 + n) (omega arith) (
          omega (
            arith,
            ap length stored,
            length-append (store_u32 n) (drop 4 p),
            length-store_u32 n,
            length-drop 4 p,
          )) in
      let msg : cast_pack (take (4 + n) (E.input b)) ≡ m =
        rw stored
          (cast_pack-stored n (drop 4 p) (wire_u32-lt p bytes) (omega (arith, length-drop 4 p))) in
      ground (arith, mem, msg, v.live)
