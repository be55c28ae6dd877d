-- ===== src/Samples/Texts.antt =====
-- samples/base/utility.cpp and samples/server_prj/main.cc: strings in messages.
use libevent_cpp.Prelude.{
  ℕ, ◌+◌, ◌%◌, ◌^◌, ◌<◌, ◌≡◌, refl, ◌∙◌, true, false, none, some, List, [], ◌∷◌, ◌++◌, arith,
  length, length-append, ◌==◌,
}
use libevent_cpp.Prelude.Outcome.{ok}
use libevent_cpp.Env.{Env}
use libevent_cpp.Prelude.Int.{is_zero}
use libevent_cpp.ConMgr.{post_del_conn}
use libevent_cpp.Con.{Con, deref, max_msg_data_len}
use libevent_cpp.Con.Framing.{IsPayload}
use libevent_cpp.Con.Receive.{pack}
use libevent_cpp.Con.Send.{send_data_pack}
use libevent_cpp.Con.Sending.{IsUp, checked_full}
use libevent_cpp.Con.Sending.Reliable.{send_data_pack-checked}
use libevent_cpp.Con.Valid.{attached}
use libevent_cpp.Listener.{Manages, svr_handlers}
use libevent_cpp.Listener.Accept.{disconnect_svr}
use libevent_cpp.Samples.{str2msg_pack, c_string, same_text}
use libevent_cpp.Samples.Server.{plain, del_text, read_again, server_on_recv, server}

-- No byte of it is zero, which would end the C string.
abbrev pub NonZero : List ℕ → Type 0
NonZero [] = Unit {0}
NonZero (x ∷ xs) = (0 < x) × NonZero xs

c_string-append : (s : List ℕ) → NonZero s → c_string (s ++ 0 ∷ []) ≡ ok s
unfolding c_string
c_string-append [] h = refl
c_string-append (x ∷ xs) h =
    let positive : (x == 0) ≡ false = ground (arith, h.0) in
    rw positive (rw (c_string-append xs h.1) refl)

-- A string with no zero byte in it, and shorter than MAX_MSG_DATA_LEN, becomes by Str2MsgPack a
-- message that can be sent, and from whose data the string is read again.
pub str2msg_pack-c_string :
    (s : List ℕ)
    → NonZero s
    → length s < max_msg_data_len
    → (str2msg_pack s ≡ ok (pack (s ++ 0 ∷ [])))
      × IsPayload (s ++ 0 ∷ [])
      × (c_string (pack (s ++ 0 ∷ [])).data_bytes ≡ ok s)
unfolding str2msg_pack
str2msg_pack-c_string s h k =
    let whole : (length s + 1) % 2 ^ 32 ≡ length (s ++ 0 ∷ []) =
      omega (arith, length-append s (0 ∷ [])) in
    (
      ground (arith, whole),
      record {
        nonempty = omega (arith, length-append s (0 ∷ []));
        fits = omega (arith, length-append s (0 ∷ []));
      },
      c_string-append s h,
    )

module _ {E : Env} (M : Manages (E.User)) (id bev n : ℕ) where
  -- Connect2Client::OnRecv, on a connection that is up with more bytes waiting than its limit, of a
  -- C string other than "del": SendData drops the connection and nothing is sent back; the handler
  -- reads the text again, which libevent still keeps, and returns with the connection closed, its
  -- bufferevent freed, and the object posted for deletion.
  pub server_on_recv_full :
      (m s : List ℕ) (c : Con E) (b : E.Bev)
      → IsUp bev c b
      → IsPayload m
      → c_string m ≡ ok s
      → same_text s del_text ≡ false
      → 0 < c.m_msbs
      → E.output_length b ≡ some n
      → c.m_msbs < n
      → (d : Con E) × ((server M id).on_recv (pack m) c ≡ ok d)
        × (is_zero d.m_fd ≡ true)
        × (d.m_buf_e ≡ none)
        × (d.bevs bev ≡ none)
        × (d.dying bev ≡ some b)
        × (M.get d.user ≡ (post_del_conn id (M.get c.user)).0)
  unfolding server svr_handlers server_on_recv read_again
  server_on_recv_full m s c b up pay text other pos_limit waiting over =
      let (d, drops, get, shut, freed, bare, there, dies) =
        disconnect_svr M id plain c (attached bev b up.attached up.live up.is_open up.alive tt)
          up.is_open in
      let refused : send_data_pack (svr_handlers M id plain) (pack m) c ≡ ok (d, false) =
        send_data_pack-checked (svr_handlers M id plain) bev m c b up pay
        ∙ checked_full (svr_handlers M id plain) bev n _ c b up.live pos_limit waiting over
        ∙ rw drops refl in
      let gone : d.bevs bev ≡ none = freed bev up.attached in
      let kept : d.dying bev ≡ some b = dies bev b up.attached up.live in
      (
        d,
        rw text (rw refused (rw up.attached (rw (deref, gone, kept, other) refl))),
        shut,
        bare,
        gone,
        kept,
        get,
      )
