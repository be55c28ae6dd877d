-- ===== src/Con/Framing.antt =====
-- Laws of the wire format of src/connector.cc: framing, unframing, and streams that come in parts.
use libevent_cpp.Prelude.{
  ℕ, zero, suc, ◌+◌, ◌≤◌, ◌<◌, ◌≡◌, refl, ap, sym, ◌∙◌, true, false, List, [], ◌∷◌, ◌++◌, arith,
  length, take, drop, length-append, length-drop, length-take, append_assoc, drop-append_le,
  take-append_le, drop-append_self, take-append_self, take-append-drop, drop-drop,
}
use libevent_cpp.Bytes.{
  wire_u32, store_u32, auto_hton32, length-store_u32, wire_u32-hton, wire_u32-append, AllBytes,
  AllBytes-drop, drop-store_u32, store-hton-wire_u32,
}
use libevent_cpp.Con.{max_msg_data_len}
use libevent_cpp.Con.Frames.{
  Parsed, stopped, bad_len, prepend, unframe, frame, frame_all, no_header, bad_header, partial_body,
  whole, start, unframe_no_header, unframe_bad_header, unframe_partial_body, unframe_whole,
}

whole-append :
    (p q : List ℕ)
    → bad_len (wire_u32 p) ≡ false
    → 4 + wire_u32 p ≤ length p
    → unframe (p ++ q)
      ≡ prepend (take (wire_u32 p) (drop 4 p) ∷ []) (unframe (drop (4 + wire_u32 p) p ++ q))
whole-append p q f g =
    let same : wire_u32 (p ++ q) ≡ wire_u32 p = wire_u32-append p q (omega arith) in
    let first : unframe (p ++ q)
        ≡ prepend (take (wire_u32 (p ++ q)) (drop 4 (p ++ q)) ∷ [])
            (unframe (drop (4 + wire_u32 (p ++ q)) (p ++ q))) =
      unframe_whole (p ++ q) (rw same f) (omega (arith, length-append p q)) in
    cc (
      first,
      same,
      drop-append_le 4 p q (omega arith),
      drop-append_le (4 + wire_u32 p) p q g,
      take-append_le (wire_u32 p) (drop 4 p) q (omega (arith, length-drop 4 p)),
    )

unframe-append_fuel :
    (k : ℕ) (p q : List ℕ)
    → length p < k
    → (unframe p).bad ≡ false
    → unframe (p ++ q) ≡ prepend (unframe p).msgs (unframe ((unframe p).rest ++ q))
unframe-append_fuel zero p q h b = absurd (omega arith)
unframe-append_fuel (suc k) p q h b = elim (start p) [
  | no_header e ↦ rw (unframe_no_header p e)
  | bad_header e f ↦ cc (ap (λ (r : Parsed). r.bad) (unframe_bad_header p e f))
  | partial_body e f g ↦ rw (unframe_partial_body p e f g)
  | whole f g ↦
      let n = wire_u32 p in
      let tail = drop (4 + n) p in
      let ih : unframe (tail ++ q)
          ≡ prepend (unframe tail).msgs (unframe ((unframe tail).rest ++ q)) =
        unframe-append_fuel k tail q (omega (arith, length-drop (4 + n) p))
          (sym (ap (λ (r : Parsed). r.bad) (unframe_whole p f g)) ∙ b) in
      whole-append p q f g ∙ (rw (unframe_whole p f g, ih))
]

-- A stream that has begun well parses the same however it is cut: what the first part leaves over
-- is parsed again together with the second.
pub unframe-append :
    (p q : List ℕ)
    → (unframe p).bad ≡ false
    → unframe (p ++ q) ≡ prepend (unframe p).msgs (unframe ((unframe p).rest ++ q))
unframe-append p q b = unframe-append_fuel (suc (length p)) p q (omega arith) b

unframe-append_bad_fuel :
    (k : ℕ) (p q : List ℕ)
    → length p < k
    → (unframe p).bad ≡ true
    → unframe (p ++ q) ≡ record (unframe p) { rest = (unframe p).rest ++ q }
unframe-append_bad_fuel zero p q h b = absurd (omega arith)
unframe-append_bad_fuel (suc k) p q h b = elim (start p) [
  | no_header e ↦ cc (ap (λ (r : Parsed). r.bad) (unframe_no_header p e))
  | bad_header e f ↦ rw (unframe_bad_header p e f) (
      unframe_bad_header (p ++ q) (omega (arith, length-append p q)) (rw (wire_u32-append p q e) f))
  | partial_body e f g ↦ cc (ap (λ (r : Parsed). r.bad) (unframe_partial_body p e f g))
  | whole f g ↦
      let tail = drop (4 + wire_u32 p) p in
      let ih : unframe (tail ++ q) ≡ record (unframe tail) { rest = (unframe tail).rest ++ q } =
        unframe-append_bad_fuel k tail q (omega (arith, length-drop (4 + wire_u32 p) p))
          (sym (ap (λ (r : Parsed). r.bad) (unframe_whole p f g)) ∙ b) in
      whole-append p q f g ∙ (rw (unframe_whole p f g, ih))
]

-- A length that is not allowed stays where it is, whatever comes after it.
pub unframe-append_bad :
    (p q : List ℕ)
    → (unframe p).bad ≡ true
    → unframe (p ++ q) ≡ record (unframe p) { rest = (unframe p).rest ++ q }
unframe-append_bad p q b = unframe-append_bad_fuel (suc (length p)) p q (omega arith) b

unframe-rest_fuel :
    (k : ℕ) (p : List ℕ)
    → length p < k
    → (unframe p).bad ≡ false
    → unframe (unframe p).rest ≡ stopped (unframe p).rest false
unframe-rest_fuel zero p h b = absurd (omega arith)
unframe-rest_fuel (suc k) p h b = elim (start p) [
  | no_header e ↦ rw (unframe_no_header p e) (unframe_no_header p e)
  | bad_header e f ↦ cc (ap (λ (r : Parsed). r.bad) (unframe_bad_header p e f))
  | partial_body e f g ↦ rw (unframe_partial_body p e f g) (unframe_partial_body p e f g)
  | whole f g ↦ rw (unframe_whole p f g) (
      unframe-rest_fuel k (drop (4 + wire_u32 p) p) (omega (arith, length-drop (4 + wire_u32 p) p))
        (sym (ap (λ (r : Parsed). r.bad) (unframe_whole p f g)) ∙ b))
]

-- What is left over holds no whole message.
pub unframe-rest :
    (p : List ℕ)
    → (unframe p).bad ≡ false
    → unframe (unframe p).rest ≡ stopped (unframe p).rest false
unframe-rest p b = unframe-rest_fuel (suc (length p)) p (omega arith) b

-- The payloads that SendPack accepts.
pub record IsPayload (m : List ℕ) : Type 0 where
  pub nonempty : 0 < length m
  pub fits : length m ≤ max_msg_data_len

abbrev pub AllPayloads : List (List ℕ) → Type 0
AllPayloads [] = Unit {0}
AllPayloads (m ∷ ms) = IsPayload m × AllPayloads ms

unframe-frame : (m q : List ℕ) → IsPayload m → unframe (frame m ++ q) ≡ prepend (m ∷ []) (unframe q)
unfolding frame
unframe-frame m q v =
    let n = length m in
    let h = store_u32 (auto_hton32 n) in
    let s = frame m ++ q in
    let split : s ≡ h ++ (m ++ q) = append_assoc h m q in
    let num : wire_u32 s ≡ n = rw split (wire_u32-hton n (m ++ q) (omega arith)) in
    let body : drop 4 s ≡ m ++ q = ap (drop 4) split ∙ drop-store_u32 (auto_hton32 n) (m ++ q) in
    let tail : drop (4 + n) s ≡ q =
      sym (drop-drop n 4 s) ∙ ap (drop n) body ∙ drop-append_self m q in
    let parsed : unframe s
        ≡ prepend (take (wire_u32 s) (drop 4 s) ∷ []) (unframe (drop (4 + wire_u32 s) s)) =
      unframe_whole s (rw num (ground arith)) (
        omega (
          arith,
          num,
          ap length split,
          length-append h (m ++ q),
          length-append m q,
          length-store_u32 (auto_hton32 n),
        )) in
    cc (parsed, num, body, tail, take-append_self m q)

-- Any number of framed payloads is read back whole, in order and with nothing left over.
pub unframe-frame_all :
    (ms : List (List ℕ))
    → AllPayloads ms
    → unframe (frame_all ms) ≡ record { msgs = ms; rest = []; bad = false }
unfolding frame_all
unframe-frame_all [] v = unframe_no_header [] (omega arith)
unframe-frame_all (m ∷ ms) v =
    unframe-frame m (frame_all ms) v.0 ∙ ap (prepend (m ∷ [])) (unframe-frame_all ms v.1)

frame-whole :
    (p m tail : List ℕ)
    → length m ≡ wire_u32 p
    → m ++ tail ≡ drop 4 p
    → 4 ≤ length p
    → AllBytes p
    → frame m ++ tail ≡ p
unfolding frame
frame-whole p m tail len body h b =
    append_assoc (store_u32 (auto_hton32 (length m))) m tail
    ∙ ap (◌++◌ (store_u32 (auto_hton32 (length m)))) body
    ∙ ap (λ (n : ℕ). store_u32 (auto_hton32 n) ++ drop 4 p) len
    ∙ store-hton-wire_u32 p h b

pub frame_all-append : (ms ns : List (List ℕ)) → frame_all (ms ++ ns) ≡ frame_all ms ++ frame_all ns
unfolding frame_all
frame_all-append [] ns = refl
frame_all-append (m ∷ ms) ns =
    ap (◌++◌ (frame m)) (frame_all-append ms ns)
    ∙ sym (append_assoc (frame m) (frame_all ms) (frame_all ns))

frame_all-unframe_fuel :
    (k : ℕ) (p : List ℕ)
    → length p < k
    → AllBytes p
    → frame_all (unframe p).msgs ++ (unframe p).rest ≡ p
unfolding frame_all
frame_all-unframe_fuel zero p h b = absurd (omega arith)
frame_all-unframe_fuel (suc k) p h b = elim (start p) [
  | no_header e ↦ rw (unframe_no_header p e)
  | bad_header e f ↦ rw (unframe_bad_header p e f)
  | partial_body e f g ↦ rw (unframe_partial_body p e f g)
  | whole f g ↦
      let n = wire_u32 p in
      let m = take n (drop 4 p) in
      let tail = drop (4 + n) p in
      let ih : frame_all (unframe tail).msgs ++ (unframe tail).rest ≡ tail =
        frame_all-unframe_fuel k tail (omega (arith, length-drop (4 + n) p))
          (AllBytes-drop (4 + n) p b) in
      let len : length m ≡ n = omega (arith, length-take n (drop 4 p), length-drop 4 p) in
      rw (unframe_whole p f g) (
        append_assoc (frame m) (frame_all (unframe tail).msgs) (unframe tail).rest
        ∙ ap (◌++◌ (frame m)) ih
        ∙ frame-whole p m tail len
            (ap (◌++◌ m) (sym (drop-drop n 4 p)) ∙ take-append-drop n (drop 4 p)) (omega arith) b)
]

-- What was parsed, framed again and followed by the rest, is the stream: nothing is lost, invented
-- or moved.
frame_all-unframe : (p : List ℕ) → AllBytes p → frame_all (unframe p).msgs ++ (unframe p).rest ≡ p
frame_all-unframe p b = frame_all-unframe_fuel (suc (length p)) p (omega arith) b

pub length-rest : (p : List ℕ) → AllBytes p → length (unframe p).rest ≤ length p
length-rest p b = omega (
  arith,
  ap length (frame_all-unframe p b),
  length-append (frame_all (unframe p).msgs) (unframe p).rest,
)
