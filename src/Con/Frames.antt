-- ===== src/Con/Frames.antt =====
-- The wire format of the messages in src/connector.cc: four bytes of length in network order, then
-- as many bytes of data, at least one and at most MAX_MSG_DATA_LEN. This is the reference view of a
-- byte stream, with no buffer and no state: which whole messages it starts with, what is left, and
-- whether what is left begins with a length that is not allowed.
use libevent_cpp.Prelude.{
  ℕ, zero, suc, ◌+◌, ◌≤◌, ◌<◌, ◌≡◌, inl, inr, Bool, true, false, ◌||◌, List, [], ◌∷◌, ◌++◌, arith,
  ltb, ◌==◌, if◌then◌else◌, Bool-cases, length, take, drop, length-drop,
}
use libevent_cpp.Bytes.{wire_u32, store_u32, auto_hton32}
use libevent_cpp.Con.{max_msg_data_len}

pub record Parsed : Type 0 where
  pub msgs : List (List ℕ)
  pub rest : List ℕ
  pub bad : Bool

abbrev pub bad_len : ℕ → Bool
bad_len n = ltb max_msg_data_len n || n == 0

abbrev pub stopped : List ℕ → Bool → Parsed
stopped p bad = record { msgs = []; rest = p; bad = bad }

abbrev pub prepend : List (List ℕ) → Parsed → Parsed
prepend ms r = record r { msgs = ms ++ r.msgs }

frames : ℕ → List ℕ → Parsed
frames zero p = stopped p false
frames (suc f) p =
    let later = frames f (drop (4 + wire_u32 p) p) in
    if ltb (length p) 4
    then stopped p false
    else if bad_len (wire_u32 p)
    then stopped p true
    else if ltb (length p) (4 + wire_u32 p)
    then stopped p false
    else prepend (take (wire_u32 p) (drop 4 p) ∷ []) later

-- Each message takes four bytes at least, so the length of the stream is fuel enough.
unfoldable pub unframe : List ℕ → Parsed
unfolding frames
unframe p = frames (suc (length p)) p

-- What SendPack puts on the wire for a message.
unfoldable pub frame : List ℕ → List ℕ
frame m = store_u32 (auto_hton32 (length m)) ++ m

unfoldable pub frame_all : List (List ℕ) → List ℕ
unfolding frame
frame_all [] = []
frame_all (m ∷ ms) = frame m ++ frame_all ms

frames_fuel : (f g : ℕ) (p : List ℕ) → length p < f → length p < g → frames f p ≡ frames g p
unfolding frames
frames_fuel zero g p h k = absurd (omega arith)
frames_fuel (suc f) zero p h k = absurd (omega arith)
frames_fuel (suc f) (suc g) p h k =
    ground (arith, length-drop (4 + wire_u32 p) p, frames_fuel f g (drop (4 + wire_u32 p) p))

-- The four ways in which a stream can start.
pub data Start (p : List ℕ) : Type 0 where
  no_header : length p < 4 → Start p
  bad_header : 4 ≤ length p → bad_len (wire_u32 p) ≡ true → Start p
  partial_body : 4 ≤ length p → bad_len (wire_u32 p) ≡ false → length p < 4 + wire_u32 p → Start p
  whole : bad_len (wire_u32 p) ≡ false → 4 + wire_u32 p ≤ length p → Start p

pub start : (p : List ℕ) → Start p
start p = elim (Bool-cases (ltb (length p) 4)) [
  | inl short ↦ no_header (ground arith)
  | inr long ↦ elim (Bool-cases (bad_len (wire_u32 p))) [
    | inl bad ↦ bad_header (ground arith) bad
    | inr good ↦ elim (Bool-cases (ltb (length p) (4 + wire_u32 p))) [
      | inl part ↦ partial_body (ground arith) good (ground arith)
      | inr all ↦ whole good (ground arith)
    ]
  ]
]

pub unframe_no_header : (p : List ℕ) → length p < 4 → unframe p ≡ stopped p false
unfolding unframe
unframe_no_header p h = ground arith

pub unframe_bad_header :
    (p : List ℕ) → 4 ≤ length p → bad_len (wire_u32 p) ≡ true → unframe p ≡ stopped p true
unfolding unframe
unframe_bad_header p h b = ground arith

pub unframe_partial_body :
    (p : List ℕ)
    → 4 ≤ length p
    → bad_len (wire_u32 p) ≡ false
    → length p < 4 + wire_u32 p
    → unframe p ≡ stopped p false
unfolding unframe
unframe_partial_body p h b k = ground arith

pub unframe_whole :
    (p : List ℕ)
    → bad_len (wire_u32 p) ≡ false
    → 4 + wire_u32 p ≤ length p
    → unframe p ≡ prepend (take (wire_u32 p) (drop 4 p) ∷ []) (unframe (drop (4 + wire_u32 p) p))
unfolding unframe
unframe_whole p b k = ground (
  arith,
  length-drop (4 + wire_u32 p) p,
  frames_fuel (length p) (suc (length (drop (4 + wire_u32 p) p))) (drop (4 + wire_u32 p) p),
)
