-- ===== src/Examples/Wire.antt =====
-- Messages sent and received.
use libevent_cpp.Prelude.{none, ℕ, ◌≡◌, refl, true, false, some, List, [], ◌∷◌, arith, inl, inr}
use libevent_cpp.Prelude.Int.{pos}
use libevent_cpp.Prelude.Outcome.{ok}
use libevent_cpp.Bytes.{auto_hton32, store_u32, wire_u32}
use libevent_cpp.Con.{Handlers, Con, MsgPack, update, put}
use libevent_cpp.Con.Frames.{stopped, unframe, frame_all}
use libevent_cpp.Con.Framing.{IsPayload, AllPayloads}
use libevent_cpp.Con.Read.{conn_read_callback_no_cp}
use libevent_cpp.Con.Receive.{Holds}
use libevent_cpp.Con.Keeping.{Serves, keeping, session-frame_all}
use libevent_cpp.Con.Delivery.{Ends, conn_read_callback-Ends}
use libevent_cpp.Con.Session.{session, Lasts, session-Lasts}
use libevent_cpp.Con.Send.{
  send_pack, send_pack_string, checked, write_frame, check_backlog, bufferevent_write,
}
use libevent_cpp.Con.Sending.{IsUp, HasRoom, Sent, send_pack_string-Sent}
use libevent_cpp.Con.Sending.Reliable.{Reliable}
use libevent_cpp.Con.Sending.Raw.{send_raw_all, send_raw_all_arrives}
use libevent_cpp.Con.Sending.Sequence.{send_all}
use libevent_cpp.Con.Transmission.{transmission}
use libevent_cpp.Examples.World.{Buffers, mail, keep, keeper, empty, open_with}

writes-Reliable : Reliable mail
writes-Reliable = record { write_lem = λ b xs. refl; output_length_some = λ b. (_, refl) }

abbrev letters : List (List ℕ)
letters = (7 ∷ []) ∷ (8 ∷ 9 ∷ []) ∷ []

one_letter : IsPayload (7 ∷ [])
one_letter = record { nonempty = omega arith; fits = omega arith }

all_letters : AllPayloads letters
all_letters = (one_letter, (record { nonempty = omega arith; fits = omega arith }, tt))

abbrev pub wire : List ℕ
wire = 0 ∷ 0 ∷ 0 ∷ 1 ∷ 7 ∷ 0 ∷ 0 ∷ 0 ∷ 2 ∷ 8 ∷ 9 ∷ []

abbrev pieces : List (List ℕ)
pieces = (0 ∷ 0 ∷ 0 ∷ []) ∷ (1 ∷ 7 ∷ 0 ∷ 0 ∷ 0 ∷ 2 ∷ 8 ∷ []) ∷ (9 ∷ []) ∷ []

abbrev pub start_con : Con mail
start_con = open_with empty []

pub start_IsUp : IsUp 1 start_con empty
start_IsUp = record { attached = refl; live = refl; is_open = refl; alive = refl; connected = refl }

pub start_Holds : Holds 1 start_con empty []
start_Holds = record {
  live = refl;
  is_open = refl;
  framed = refl;
  alive = refl;
  bytes = tt;
  small = omega arith;
  image = inl (refl, refl);
}

pub keeper-Serves : Serves keeper 1 keep
keeper-Serves = record {
  on_recv_lem =
      λ m c b e f. (record c { user = keep m c.user }, b, refl, e, refl, f, (refl, refl), refl);
}

abbrev wrote : List ℕ → Buffers
wrote xs = record { received = []; waiting = xs }

-- The sender after both messages.
abbrev sent_con : Con mail
sent_con = record start_con {
  bevs =
      update
        (update
          (update (update start_con.bevs 1 (some (wrote (0 ∷ 0 ∷ 0 ∷ 1 ∷ [])))) 1
            (some (wrote (0 ∷ 0 ∷ 0 ∷ 1 ∷ 7 ∷ []))))
          1 (some (wrote (0 ∷ 0 ∷ 0 ∷ 1 ∷ 7 ∷ 0 ∷ 0 ∷ 0 ∷ 2 ∷ []))))
        1 (some (wrote wire));
}

sends : send_all keeper letters start_con ≡ ok (sent_con, true)
unfolding send_all send_pack_string send_pack checked write_frame auto_hton32 put check_backlog
    bufferevent_write store_u32
sends = refl

transmission_example :
    (d : Con mail) × (e : Buffers) × (session keeper 1 pieces start_con ≡ ok d)
    × Holds 1 d e []
    × (d.user ≡ letters)
transmission_example =
    transmission mail mail keeper keeper 1 1 keep letters pieces start_con sent_con empty
      (wrote wire) start_con empty start_IsUp refl all_letters sends refl refl (omega arith)
      (omega arith) keeper-Serves start_Holds

send_raw_all_arrives_example :
    (c' : Con mail) × (b' : Buffers) × (send_raw_all keeper pieces start_con ≡ ok c')
    × (c'.bevs 1 ≡ some b')
    × (b'.waiting ≡ wire)
    × (d : Con mail) × (e : Buffers) × (session keeper 1 (wire ∷ []) start_con ≡ ok d)
    × Holds 1 d e []
    × (d.user ≡ letters)
unfolding frame_all store_u32 auto_hton32
send_raw_all_arrives_example =
    send_raw_all_arrives mail mail keeper keeper 1 1 keep pieces letters (wire ∷ []) start_con empty
      start_con empty writes-Reliable start_IsUp refl (inr (omega arith)) refl all_letters refl
      (omega arith) (omega arith) keeper-Serves start_Holds

session-frame_all_example :
    (d : Con mail) × (e : Buffers) × (session keeper 1 pieces start_con ≡ ok d)
    × Holds 1 d e []
    × (d.user ≡ letters)
unfolding frame_all store_u32 auto_hton32
session-frame_all_example =
    session-frame_all keeper 1 keep keeper-Serves letters pieces start_con empty start_Holds
      all_letters refl (omega arith) (omega arith)

-- One whole message, and a part of the next.
abbrev cut : List (List ℕ)
cut = (0 ∷ 0 ∷ 0 ∷ []) ∷ (1 ∷ 7 ∷ 0 ∷ 0 ∷ []) ∷ []

cut_idle : unframe [] ≡ stopped [] false
unfolding unframe
cut_idle = refl

session-Lasts_example :
    Lasts keeper 1
      (keeping keeper 1 keep keeper-Serves [])
      []
      (unframe (0 ∷ 0 ∷ 0 ∷ 1 ∷ 7 ∷ 0 ∷ 0 ∷ []))
      (session keeper 1 cut start_con)
session-Lasts_example =
    session-Lasts keeper 1 (keeping keeper 1 keep keeper-Serves []) cut [] start_con empty []
      start_Holds refl tt cut_idle (omega arith) (omega arith) (unfold unframe wire_u32 in refl)

abbrev pub arrived : Buffers
arrived = record { received = wire; waiting = [] }

pub arrived-Holds : Holds 1 (open_with {A = List (List ℕ)} arrived []) arrived wire
arrived-Holds = record {
  live = refl;
  is_open = refl;
  framed = refl;
  alive = refl;
  bytes = omega arith;
  small = omega arith;
  image = inl (refl, refl);
}

conn_read_callback-Ends_example :
    Ends keeper 1
      (keeping keeper 1 keep keeper-Serves [])
      []
      (unframe wire)
      (conn_read_callback_no_cp keeper 1 (open_with arrived []))
conn_read_callback-Ends_example =
    conn_read_callback-Ends keeper 1 (keeping keeper 1 keep keeper-Serves []) []
      (open_with arrived []) arrived wire arrived-Holds refl tt

start_HasRoom : HasRoom start_con empty
start_HasRoom = record { room = inr (0, refl, omega arith) }

send_pack_string-Sent_example :
    Sent 1 start_con empty (7 ∷ []) (send_pack_string keeper (7 ∷ []) start_con)
send_pack_string-Sent_example =
    send_pack_string-Sent keeper 1 (7 ∷ []) start_con empty start_IsUp start_HasRoom one_letter

-- A class that drops its connection in OnRecv, and has another one when it returns.
abbrev moved : MsgPack → Con mail → Con mail
moved m c = record c {
  m_buf_e = some 2;
  m_fd = pos 6;
  bevs = update c.bevs 1 none;
  dying = update c.dying 1 (c.bevs 1);
  user = keep m c.user;
}

abbrev restless : Handlers mail
restless = record keeper { on_recv = λ m c. ok (moved m c) }

-- A class in raw mode that takes two bytes at a time.
abbrev sipping : Handlers mail
sipping = record keeper { on_raw_recv = λ p n c. ok (c, pos 2) }

abbrev raw_con : Con mail
raw_con = record (open_with {A = List (List ℕ)} arrived []) { m_is_raw_read_cb = true }
