-- ===== src/Examples/Floods.antt =====
-- The test with a thousand messages.
use libevent_cpp.Prelude.{
  ℕ, ◌≡◌, refl, Bool, true, false, none, some, List, [], ◌∷◌, append-nil, arith, inl,
}
use libevent_cpp.Prelude.Int.{is_zero}
use libevent_cpp.Prelude.Outcome.{ok}
use libevent_cpp.Bytes.{auto_hton32, store_u32}
use libevent_cpp.Con.{Con}
use libevent_cpp.Con.Frames.{frame, frame_all}
use libevent_cpp.Con.Receive.{Holds}
use libevent_cpp.Con.Sending.{IsUp}
use libevent_cpp.Con.Session.{flatten, session}
use libevent_cpp.Trials.Flood.{Member, flood, re_con}
use libevent_cpp.Trials.Flood.Run.{thousand, dicon_on_max_revmsg}
use libevent_cpp.Examples.World.{Buffers, world, empty, open_with}
use libevent_cpp.Examples.Server.{office, itself, served}
use libevent_cpp.Examples.Echoes.{first_id, world-Reliable, served-IsUp, served-Holds}

abbrev flags : Member Bool Bool
flags = record { get = λ u. u; set = λ a u. a; get-set = λ a u. refl }

abbrev client : Con (world Bool)
client = open_with empty false

client-IsUp : IsUp 1 client empty
client-IsUp = record {
  attached = refl;
  alive = refl;
  live = refl;
  is_open = refl;
  connected = refl;
}

client-Holds : Holds 1 client empty []
client-Holds = record {
  live = refl;
  is_open = refl;
  framed = refl;
  alive = refl;
  bytes = tt;
  small = omega arith;
  image = inl (refl, refl);
}

-- "abc", in two pieces.
abbrev asking : List (List ℕ)
asking = (0 ∷ 0 ∷ 0 ∷ []) ∷ (3 ∷ 97 ∷ 98 ∷ 99 ∷ []) ∷ []

asking_frame : flatten asking ≡ frame_all ((97 ∷ 98 ∷ 99 ∷ []) ∷ [])
unfolding frame_all frame auto_hton32 store_u32
asking_frame = refl

dicon_on_max_revmsg_example :
    (d1 : Con (world Bool)) × (e1 : Buffers) × (c1 : Con office) × (b1 : Buffers) × (d2 : Con
      (world Bool))
    × ((re_con flags).on_connected client ≡ ok d1)
    × (d1.bevs 1 ≡ some e1)
    × (e1.waiting ≡ flatten asking)
    × (session (flood itself first_id) 1 asking served ≡ ok c1)
    × (c1.bevs 1 ≡ some b1)
    × (b1.waiting ≡ flatten (frame_all thousand ∷ []))
    × (session (re_con flags) 1 (frame_all thousand ∷ []) d1 ≡ ok d2)
    × (is_zero d2.m_fd ≡ true)
    × (d2.bevs 1 ≡ none)
    × (d2.user ≡ true)
dicon_on_max_revmsg_example =
    dicon_on_max_revmsg office (world Bool) itself flags first_id 1 1 asking
      (frame_all thousand ∷ []) served empty client empty world-Reliable world-Reliable served-IsUp
      served-Holds refl refl client-IsUp client-Holds refl refl refl asking_frame
      (append-nil (frame_all thousand))
