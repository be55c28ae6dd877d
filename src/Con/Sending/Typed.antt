-- ===== src/Con/Sending/Typed.antt =====
-- What SendPack puts on the wire is bytes.
use libevent_cpp.Prelude.{ℕ, List, [], ◌∷◌, ◌++◌, length}
use libevent_cpp.Bytes.{AllBytes, AllBytes-append, store_u32, store_u32-AllBytes, auto_hton32}
use libevent_cpp.Con.Frames.{frame, frame_all}

abbrev pub EachBytes : List (List ℕ) → Type 0
EachBytes [] = Unit {0}
EachBytes (m ∷ ms) = AllBytes m × EachBytes ms

pub frame_all-AllBytes : (ms : List (List ℕ)) → EachBytes ms → AllBytes (frame_all ms)
unfolding frame_all frame
frame_all-AllBytes [] h = tt
frame_all-AllBytes (m ∷ ms) h =
    AllBytes-append (store_u32 (auto_hton32 (length m)) ++ m) (frame_all ms)
      (AllBytes-append (store_u32 (auto_hton32 (length m))) m
        (store_u32-AllBytes (auto_hton32 (length m))) h.0)
      (frame_all-AllBytes ms h.1)
