-- ===== src/Examples/Leftover.antt =====
-- A connection that gets one whole message and a part of the next.
use libevent_cpp.Prelude.{ℕ, ◌≡◌, ◌<◌, ◌+◌, refl, false, some, List, [], ◌∷◌, arith, inl}
use libevent_cpp.Prelude.Int.{to_int, to_size}
use libevent_cpp.Prelude.Outcome.{Outcome, ok, fault, out_of_fuel}
use libevent_cpp.Bytes.{auto_ntoh32, load_u32, store_u32, wire_u32}
use libevent_cpp.Con.{Con, put, deref, cast_pack, max_msg_data_len}
use libevent_cpp.Con.Frames.{unframe}
use libevent_cpp.Con.Read.{
  read_head, after_recv, deliver, read_body, read_round, read_loop, conn_read_callback_no_cp,
}
use libevent_cpp.Con.Receive.{Holds}
use libevent_cpp.Con.Keeping.{keeping}
use libevent_cpp.Con.Bound.{conn_read_callback-bound}
use libevent_cpp.Examples.World.{Buffers, mail, keep, keeper, open_with}
use libevent_cpp.Examples.Wire.{keeper-Serves}

abbrev stream : List ℕ
stream = 0 ∷ 0 ∷ 0 ∷ 1 ∷ 7 ∷ 0 ∷ 0 ∷ []

abbrev partly : Buffers
partly = record { received = stream; waiting = [] }

abbrev partly_con : Con mail
partly_con = open_with partly []

partly-Holds : Holds 1 partly_con partly stream
partly-Holds = record {
  live = refl;
  is_open = refl;
  framed = refl;
  alive = refl;
  bytes = omega arith;
  small = omega arith;
  image = inl (refl, refl);
}

abbrev taken : Outcome (Con mail) → Con mail
taken out_of_fuel = partly_con
taken (fault why) = partly_con
taken (ok c) = c

abbrev after_con : Con mail
after_con = taken (conn_read_callback_no_cp keeper 1 partly_con)

abbrev rest : Buffers
rest = record { received = 0 ∷ 0 ∷ []; waiting = [] }

returned :
    (conn_read_callback_no_cp keeper 1 partly_con ≡ ok after_con) × (after_con.bevs 1 ≡ some rest)
unfolding conn_read_callback_no_cp read_loop read_round read_head read_body deliver after_recv deref
    put cast_pack load_u32 auto_ntoh32 store_u32 to_int to_size
returned = (refl, refl)

no_bad : (unframe stream).bad ≡ false
unfolding unframe wire_u32
no_bad = refl

conn_read_callback-bound_example : 2 < 4 + max_msg_data_len
conn_read_callback-bound_example =
    conn_read_callback-bound keeper 1 (keeping keeper 1 keep keeper-Serves []) [] partly_con
      after_con partly rest stream partly-Holds refl tt no_bad returned.0 returned.1
