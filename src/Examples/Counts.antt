-- ===== src/Examples/Counts.antt =====
-- The test that counts to 3000, at its last number.
use libevent_cpp.Prelude.{◌+◌, ◌<◌, ◌≡◌, ◌⊎◌, ◌++◌, refl, true, [], ◌∷◌, arith, inl, inr}
use libevent_cpp.Prelude.Outcome.{ok, fault, Fault}
use libevent_cpp.Bytes.{auto_hton32, store_u32}
use libevent_cpp.Con.{Con}
use libevent_cpp.Con.Frames.{frame, frame_all}
use libevent_cpp.Con.Read.{conn_read_callback_no_cp}
use libevent_cpp.Con.Receive.{Holds}
use libevent_cpp.Con.Sending.{IsUp}
use libevent_cpp.Trials.Flood.{Member}
use libevent_cpp.Trials.Counting.{Counter, counting}
use libevent_cpp.Trials.Counting.Last.{count_arrives}
use libevent_cpp.Examples.World.{Buffers, world, open_with}
use libevent_cpp.Examples.Echoes.{world-Reliable}

abbrev itself : Member Counter Counter
itself = record { get = λ u. u; set = λ k u. k; get-set = λ k u. refl }

abbrev number_back : Buffers
number_back = record { received = 0 ∷ 0 ∷ 0 ∷ 4 ∷ 183 ∷ 11 ∷ 0 ∷ 0 ∷ []; waiting = [] }

abbrev counted : Con (world Counter)
counted = open_with number_back (record { m_cnt = 2999; in_map = true })

counted-IsUp : IsUp 1 counted number_back
counted-IsUp = record {
  attached = refl;
  alive = refl;
  live = refl;
  is_open = refl;
  connected = refl;
}

counted-Holds : Holds 1 counted number_back (frame_all (store_u32 2999 ∷ []))
unfolding frame_all frame auto_hton32 store_u32
counted-Holds = record {
  live = refl;
  is_open = refl;
  framed = refl;
  alive = refl;
  bytes = omega arith;
  small = omega arith;
  image = inl (refl, refl);
}

count_arrives_example :
    ((c : Con (world Counter)) × (b : Buffers) × (2999 + 1 < 3000)
      × (conn_read_callback_no_cp (counting itself) 1 counted ≡ ok c)
      × IsUp 1 c b
      × Holds 1 c b []
      × (c.user ≡ record { m_cnt = 3000; in_map = true })
      × (b.waiting ≡ [] ++ frame (store_u32 3000)))
    ⊎ ((2999 + 1 ≡ 3000)
        × (conn_read_callback_no_cp (counting itself) 1 counted ≡ fault Fault.use_after_free))
count_arrives_example =
    count_arrives itself 1 world-Reliable 2999 counted number_back counted-IsUp counted-Holds refl
      (omega arith) (inr (omega arith))
