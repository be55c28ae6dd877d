-- ===== src/Con/Bound.antt =====
-- How much ConCom::conn_read_callback_no_cp leaves in the buffer.
use libevent_cpp.Prelude.{
  ℕ, ◌+◌, ◌<◌, ◌≡◌, ap, sym, ◌∙◌, false, true, none, some, List, ◌++◌, arith, length,
}
use libevent_cpp.Prelude.Outcome.{ok, ok_same}
use libevent_cpp.Env.{Env}
use libevent_cpp.Con.{Con, Handlers, max_msg_data_len}
use libevent_cpp.Con.Frames.{
  stopped, unframe, no_header, bad_header, partial_body, whole, start, unframe_bad_header,
  unframe_whole,
}
use libevent_cpp.Con.Framing.{unframe-rest}
use libevent_cpp.Con.Read.{conn_read_callback_no_cp}
use libevent_cpp.Con.Receive.{Holds, Holds-length}
use libevent_cpp.Con.Serving.{Contract}
use libevent_cpp.Con.Delivery.{waits, drops, closes, conn_read_callback-Ends}

idle-bound : (p : List ℕ) → unframe p ≡ stopped p false → length p < 4 + max_msg_data_len
idle-bound p h = elim (start p) [
  | no_header e ↦ omega arith
  | bad_header e f ↦
      let both : stopped p true ≡ stopped p false = sym (unframe_bad_header p e f) ∙ h in cc both
  | partial_body e f g ↦ ground arith
  | whole f g ↦ let both = sym (unframe_whole p f g) ∙ h in cc both
]

-- What is left of a stream is less than a header and the longest message.
pub rest-bound :
    (p : List ℕ) → (unframe p).bad ≡ false → length (unframe p).rest < 4 + max_msg_data_len
rest-bound p h = idle-bound (unframe p).rest (unframe-rest p h)

-- On an open connection with less than 2^31 bytes that wait and no bad length among them, and under
-- a contract of OnRecv by which it can take the messages that are there: when
-- ConCom::conn_read_callback_no_cp has returned with the bufferevent still there, less than four
-- bytes and MAX_MSG_DATA_LEN are left in its input, however many there were.
pub conn_read_callback-bound :
    {E : Env} (U : Handlers E) (bev : ℕ) (K : Contract U bev) (done : List (List ℕ)) (c c' : Con E)
    (b b' : E.Bev) (p : List ℕ)
    → Holds bev c b p
    → K.After done c b
    → K.Can (done ++ (unframe p).msgs)
    → (unframe p).bad ≡ false
    → conn_read_callback_no_cp U bev c ≡ ok c'
    → c'.bevs bev ≡ some b'
    → E.input_length b' < 4 + max_msg_data_len
conn_read_callback-bound {E} U bev K done c c' b b' p v after can good returns live =
    elim (conn_read_callback-Ends U bev K done c b p v after can) [
      | waits c1 b1 e v1 after1 g ↦
          let same : c1 ≡ c' = ok_same e returns in
          let both : some b1 ≡ some b' = sym v1.live ∙ ap (λ (k : Con E). k.bevs bev) same ∙ live in
          let same_b : b1 ≡ b' = cc both in
          omega (arith, ap E.input_length (sym same_b), Holds-length v1, rest-bound p good)
      | drops c1 b1 e v1 after1 g ↦ cc
      | closes c1 ms later cut e gone closed ↦
          let same : c1 ≡ c' = ok_same e returns in
          let both : none ≡ some b' = sym gone ∙ ap (λ (k : Con E). k.bevs bev) same ∙ live in
          cc both
    ]
