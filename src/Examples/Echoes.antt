-- ===== src/Examples/Echoes.antt =====
-- The sample server at work.
use libevent_cpp.Prelude.{
  some, none, ℕ, ◌≡◌, ◌⊎◌, refl, true, false, none, List, [], ◌∷◌, ◌++◌, arith, inl, inr,
}
use libevent_cpp.Prelude.Int.{is_zero}
use libevent_cpp.Prelude.Outcome.{ok}
use libevent_cpp.Bytes.{auto_hton32, store_u32}
use libevent_cpp.Con.{Con}
use libevent_cpp.Con.Frames.{frame, frame_all}
use libevent_cpp.Con.Framing.{AllPayloads}
use libevent_cpp.Con.Receive.{Holds, pack}
use libevent_cpp.Con.Session.{session}
use libevent_cpp.Con.Sending.{IsUp}
use libevent_cpp.Con.Sending.Reliable.{Reliable}
use libevent_cpp.ConMgr.{
  ConMgr, post_del_conn, on_timer_del_conn, lookup, create_connect_for_listener, assign,
  new_con_mgr, svr_id, erase,
}
use libevent_cpp.ConMgr.Owned.{alive}
use libevent_cpp.ConMgr.Walk.{create}
use libevent_cpp.ConMgr.Posted.{run_calls, posted_deleted}
use libevent_cpp.Samples.{c_string}
use libevent_cpp.Samples.Server.{server}
use libevent_cpp.Samples.Echo.{AllTexts, any_del}
use libevent_cpp.Samples.Talk.{echo_session}
use libevent_cpp.Samples.Ending.{ended_deleted}
use libevent_cpp.Samples.Texts.{server_on_recv_full}
use libevent_cpp.Examples.World.{Buffers, world, empty, open_with}
use libevent_cpp.Examples.Server.{two_made, two_IsValid, office, itself, served, served_found}

abbrev pub first_id : ℕ
first_id = 38654705665

pub world-Reliable : {A : Type 0} → Reliable (world A)
world-Reliable = record { write_lem = λ b xs. refl; output_length_some = λ b. (_, refl) }

pub served-IsUp : IsUp 1 served empty
served-IsUp = record {
  attached = refl;
  live = refl;
  is_open = refl;
  alive = refl;
  connected = refl;
}

pub served-Holds : Holds 1 served empty []
served-Holds = record {
  live = refl;
  is_open = refl;
  framed = refl;
  alive = refl;
  bytes = tt;
  small = omega arith;
  image = inl (refl, refl);
}

-- "hi" and "del", as C strings.
abbrev pub hi : List ℕ
hi = 104 ∷ 105 ∷ 0 ∷ []

abbrev words : List (List ℕ)
words = hi ∷ (100 ∷ 101 ∷ 108 ∷ 0 ∷ []) ∷ []

pub word_payloads : AllPayloads words
word_payloads = (
  record { nonempty = omega arith; fits = omega arith },
  (record { nonempty = omega arith; fits = omega arith }, tt),
)

pub word_texts : AllTexts words
unfolding c_string
word_texts = ((104 ∷ 105 ∷ [], refl), ((100 ∷ 101 ∷ 108 ∷ [], refl), tt))

abbrev word_pieces : List (List ℕ)
word_pieces =
    (0 ∷ 0 ∷ 0 ∷ 3 ∷ 104 ∷ []) ∷ (105 ∷ 0 ∷ 0 ∷ 0 ∷ 0 ∷ 4 ∷ 100 ∷ []) ∷ (101 ∷ 108 ∷ 0 ∷ []) ∷ []

echo_session_example :
    ((c : Con office) × (b : Buffers) × (any_del words ≡ false)
      × (session (server itself first_id) 1 word_pieces served ≡ ok c)
      × IsUp 1 c b
      × (c.user ≡ two_made)
      × (b.waiting ≡ [] ++ frame_all words))
    ⊎ ((c : Con office) × (any_del words ≡ true)
        × (session (server itself first_id) 1 word_pieces served ≡ ok c)
        × (c.bevs 1 ≡ none)
        × (is_zero c.m_fd ≡ true)
        × (c.user ≡ (post_del_conn first_id two_made).0))
unfolding frame_all frame store_u32 auto_hton32
echo_session_example =
    echo_session itself first_id 1 100 words word_pieces served empty world-Reliable two_IsValid
      served_found served-IsUp served-Holds word_payloads word_texts (inr (omega arith)) refl
      (omega arith) (omega arith)

ended_deleted_example :
    (c : Con office) × (o : ConMgr) × (session (server itself first_id) 1 word_pieces served ≡ ok c)
    × (c.bevs 1 ≡ none)
    × (on_timer_del_conn (run_calls [] c.user) ≡ ok o)
    × (o.objs 100 ≡ none)
unfolding frame_all frame store_u32 auto_hton32 c_string
ended_deleted_example =
    ended_deleted itself first_id 1 100 words word_pieces served empty [] world-Reliable two_IsValid
      served_found served-IsUp served-Holds word_payloads word_texts refl (inr (omega arith)) refl
      (omega arith) (omega arith) tt

-- A limit of one byte, and two that wait.
abbrev slow : Buffers
slow = record { received = []; waiting = 1 ∷ 2 ∷ [] }

abbrev slow_con : Con office
slow_con = record (open_with slow two_made) { m_msbs = 1 }

slow-IsUp : IsUp 1 slow_con slow
slow-IsUp = record { attached = refl; live = refl; is_open = refl; alive = refl; connected = refl }

hi_text : c_string hi ≡ ok (104 ∷ 105 ∷ [])
unfolding c_string
hi_text = refl

server_on_recv_full_example :
    (d : Con office) × ((server itself first_id).on_recv (pack hi) slow_con ≡ ok d)
    × (is_zero d.m_fd ≡ true)
    × (d.m_buf_e ≡ none)
    × (d.bevs 1 ≡ none)
    × (d.dying 1 ≡ some slow)
    × (d.user ≡ (post_del_conn first_id two_made).0)
server_on_recv_full_example =
    server_on_recv_full itself first_id 1 2 hi (104 ∷ 105 ∷ []) slow_con slow slow-IsUp
      word_payloads.0 hi_text refl (omega arith) refl (omega arith)

posted_deleted_example :
    (o : ConMgr) × (on_timer_del_conn
        (run_calls (create 300 9 ∷ []) (post_del_conn first_id two_made).0)
      ≡ ok o)
    × (alive ((run_calls (create 300 9 ∷ []) (post_del_conn first_id two_made).0).objs 100) ≡ 1)
    × (o.objs 100 ≡ none)
unfolding post_del_conn lookup create_connect_for_listener assign new_con_mgr svr_id erase
posted_deleted_example =
    posted_deleted first_id 100 two_made (create 300 9 ∷ []) two_IsValid served_found
      ((refl, refl), tt)
