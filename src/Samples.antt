-- ===== src/Samples.antt =====
-- samples/base/utility.cpp, and the strings that the two sample programs read out of messages. A
-- message is held in memory that is known up to its end only, so that a read which goes on past it
-- is a fault.
pub mod Server
pub mod Texts
pub mod Client
pub mod Echo
pub mod Talk
pub mod Ending
pub mod RoundTrip
pub mod Meet
use libevent_cpp.Prelude.{
  ℕ, suc, ◌+◌, ◌%◌, ◌^◌, Bool, true, false, List, [], ◌∷◌, ◌++◌, ltb, ◌==◌, if◌then◌else◌, length,
}
use libevent_cpp.Prelude.Outcome.{Outcome, ok, fault, Fault, ◌>>=◌}
use libevent_cpp.Con.{MsgPack, max_msg_data_len}

-- Str2MsgPack: the zero byte at the end of the string is copied too, and nothing asks whether the
-- array `data`, of MAX_MSG_DATA_LEN bytes, can hold it.
unfoldable pub str2msg_pack : List ℕ → Outcome MsgPack
str2msg_pack str =
    if ltb max_msg_data_len (length str + 1)
    then fault Fault.out_of_bounds
    else ok (record { len = (length str + 1) % 2 ^ 32; data_bytes = str ++ 0 ∷ [] })

-- The data of a message as a C string: what stands before the first zero byte.
unfoldable pub c_string : List ℕ → Outcome (List ℕ)
c_string [] = fault Fault.out_of_bounds
c_string (x ∷ xs) = if x == 0 then ok [] else (c_string xs >>= λ s. ok (x ∷ s))

abbrev pub same_text : List ℕ → List ℕ → Bool
same_text [] [] = true
same_text [] (y ∷ ys) = false
same_text (x ∷ xs) [] = false
same_text (x ∷ xs) (y ∷ ys) = if x == y then same_text xs ys else false
