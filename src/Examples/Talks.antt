-- ===== src/Examples/Talks.antt =====
-- Both ends of a connection of the sample server.
use libevent_cpp.Prelude.{ℕ, ◌≡◌, refl, true, some, List, [], ◌∷◌, ◌++◌, arith, inl, inr}
use libevent_cpp.Prelude.Int.{to_int, to_size}
use libevent_cpp.Prelude.Outcome.{Outcome, ok, fault, out_of_fuel}
use libevent_cpp.Bytes.{auto_hton32, auto_ntoh32, load_u32, store_u32}
use libevent_cpp.Con.{Con, update, put, deref, cast_pack, set_event_cb_log}
use libevent_cpp.Con.Frames.{frame, frame_all}
use libevent_cpp.Con.Receive.{Holds}
use libevent_cpp.Con.Session.{arrive, session}
use libevent_cpp.Con.Read.{
  read_head, after_recv, deliver, read_body, read_round, read_loop, conn_read_callback_no_cp,
  readcb,
}
use libevent_cpp.Con.Send.{
  send_data_pack, send_pack, send_pack_string, checked, check_backlog, limit_backlog, write_frame,
  bufferevent_write,
}
use libevent_cpp.Con.Sending.Sequence.{send_all}
use libevent_cpp.Samples.{str2msg_pack, c_string}
use libevent_cpp.Samples.Server.{read_again, server_on_recv, server_on_connected, server}
use libevent_cpp.Samples.Talk.{serve_new}
use libevent_cpp.Samples.Client.{client}
use libevent_cpp.Samples.RoundTrip.{round_trip}
use libevent_cpp.Listener.{svr_handlers}
use libevent_cpp.Examples.Wire.{keeper-Serves, start_con, start_IsUp}
use libevent_cpp.Examples.World.{Buffers, mail, keep, keeper, world, empty}
use libevent_cpp.Examples.Server.{two_IsValid, office, itself, served, served_found}
use libevent_cpp.Examples.Echoes.{
  first_id, world-Reliable, served-IsUp, served-Holds, hi, word_payloads, word_texts,
}

abbrev waits_with : List ℕ → Buffers
waits_with xs = record { received = []; waiting = xs }

-- "hi" as it is sent, and the answer.
abbrev hi_wire : List ℕ
hi_wire = 0 ∷ 0 ∷ 0 ∷ 3 ∷ 104 ∷ 105 ∷ 0 ∷ []

abbrev hi_answer : List ℕ
hi_answer = 0 ∷ 0 ∷ 0 ∷ 2 ∷ 115 ∷ 0 ∷ 0 ∷ 0 ∷ 0 ∷ 3 ∷ 104 ∷ 105 ∷ 0 ∷ []

abbrev there : List (List ℕ)
there = (0 ∷ 0 ∷ 0 ∷ 3 ∷ 104 ∷ []) ∷ (105 ∷ 0 ∷ []) ∷ []

abbrev back : List (List ℕ)
back = (0 ∷ 0 ∷ 0 ∷ 2 ∷ 115 ∷ 0 ∷ 0 ∷ []) ∷ (0 ∷ 0 ∷ 3 ∷ 104 ∷ 105 ∷ 0 ∷ []) ∷ []

abbrev result : {A : Type 0} → Con (world A) → Outcome (Con (world A)) → Con (world A)
result c out_of_fuel = c
result c (fault why) = c
result c (ok d) = d

abbrev hi_sent : Con mail
hi_sent = record start_con {
  bevs =
      update (update start_con.bevs 1 (some (waits_with (0 ∷ 0 ∷ 0 ∷ 3 ∷ [])))) 1
        (some (waits_with hi_wire));
}

abbrev answered : Con office
answered = result served (serve_new itself first_id 1 there served)

hi_sends : send_all keeper (hi ∷ []) start_con ≡ ok (hi_sent, true)
unfolding send_all send_pack_string send_pack checked write_frame auto_hton32 put check_backlog
    bufferevent_write store_u32
hi_sends = refl

answers :
    (serve_new itself first_id 1 there served ≡ ok answered)
    × (answered.bevs 1 ≡ some (waits_with hi_answer))
unfolding serve_new session arrive readcb conn_read_callback_no_cp read_loop read_round read_head
    read_body deliver after_recv server server_on_recv server_on_connected svr_handlers read_again
    set_event_cb_log str2msg_pack c_string send_data_pack checked check_backlog limit_backlog
    write_frame bufferevent_write deref put cast_pack load_u32 auto_ntoh32 auto_hton32 store_u32
    to_int to_size
answers = (refl, refl)

round_trip_example :
    (d : Con mail) × (e : Buffers) × (session keeper 1 back hi_sent ≡ ok d)
    × Holds 1 d e []
    × (d.user ≡ (115 ∷ 0 ∷ []) ∷ hi ∷ [])
unfolding frame frame_all auto_hton32 store_u32 c_string
round_trip_example =
    round_trip office mail itself first_id 1 100 1 keeper keep (hi ∷ []) there back served answered
      empty (waits_with hi_answer) start_con hi_sent empty (waits_with hi_wire) world-Reliable
      two_IsValid served_found served-IsUp served-Holds refl (inr (omega arith))
      (word_payloads.0, tt) (word_texts.0, tt) refl start_IsUp refl hi_sends refl refl (omega arith)
      (omega arith) answers.0 answers.1 refl (omega arith) (omega arith) keeper-Serves
      (record {
        live = refl;
        is_open = refl;
        framed = refl;
        alive = refl;
        bytes = tt;
        small = omega arith;
        image = inl (refl, refl);
      })

abbrev say : List ℕ → List (List ℕ) → List (List ℕ)
say t u = u ++ t ∷ []

-- "1 msg" as it is sent, in two pieces, and the answer in one.
abbrev msg_there : List (List ℕ)
msg_there = (0 ∷ 0 ∷ 0 ∷ 6 ∷ 49 ∷ []) ∷ (32 ∷ 109 ∷ 115 ∷ 103 ∷ 0 ∷ []) ∷ []

abbrev msg_answer : List ℕ
msg_answer = 0 ∷ 0 ∷ 0 ∷ 2 ∷ 115 ∷ 0 ∷ 0 ∷ 0 ∷ 0 ∷ 6 ∷ 49 ∷ 32 ∷ 109 ∷ 115 ∷ 103 ∷ 0 ∷ []

abbrev msg_sent : Con mail
msg_sent = result start_con ((client say).on_connected start_con)

abbrev msg_answered : Con office
msg_answered = result served (serve_new itself first_id 1 msg_there served)
