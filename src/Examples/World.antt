-- ===== src/Examples/World.antt =====
-- A bufferevent that never fails: the interface of src/connector.cc with libevent, filled in.
use libevent_cpp.Prelude.{
  ℕ, ◌≤◌, ◌<◌, ◌==◌, ◌≡◌, refl, true, false, Option, none, some, List, [], ◌∷◌, ◌++◌, arith, leb,
  if◌then◌else◌, length, take, drop,
}
use libevent_cpp.Prelude.Int.{pos}
use libevent_cpp.Prelude.Outcome.{ok}
use libevent_cpp.Env.{Env}
use libevent_cpp.Con.{Con, Handlers, MsgPack, SockAddr, af_inet}

pub record Buffers : Type 0 where
  pub received : List ℕ
  pub waiting : List ℕ

abbrev pub peek : Buffers → ℕ → Option (List ℕ)
peek b n =
    if n == 0 then none else if leb n (length b.received) then some (take n b.received) else none

pub peek_lem :
    (b : Buffers) (n : ℕ) → 0 < n → n ≤ length b.received → peek b n ≡ some (take n b.received)
peek_lem b n k h = ground arith

abbrev pub world : Type 0 → Env
world A = record {
  Bev = Buffers;
  User = A;
  input = λ b. b.received;
  output = λ b. b.waiting;
  input_length = λ b. length b.received;
  pullup = peek;
  overwrite = λ b xs. record b { received = xs ++ drop (length xs) b.received };
  drain = λ b n. record b { received = drop n b.received };
  output_length = λ b. some (length b.waiting);
  write = λ b xs. (record b { waiting = b.waiting ++ xs }, true);
  receive = λ b xs. record b { received = b.received ++ xs };
  setwatermark = λ b events low high. b;
  inet_addr = λ ip. 16777343;
  input_length_lem = λ b. refl;
  pullup_lem = peek_lem;
  input-overwrite = λ b xs h. refl;
  input-drain = λ b n. refl;
  output_length_lem = λ b n h. cc;
  input-receive = λ b xs. refl;
  output-overwrite = λ b xs. refl;
  output-drain = λ b n. refl;
  output-receive = λ b xs. refl;
  input-write = λ b xs. refl;
  output-write = λ b xs h. refl;
  output-write_fail = λ b xs h. cc;
}

-- A class whose callbacks do nothing but keep each message.
abbrev pub mail : Env
mail = world (List (List ℕ))

abbrev pub keep : MsgPack → List (List ℕ) → List (List ℕ)
keep m u = u ++ take m.len m.data_bytes ∷ []

abbrev pub keeper : Handlers mail
keeper = record {
  on_recv = λ m c. ok (record c { user = keep m c.user });
  on_connected = λ c. ok c;
  on_error = λ e c. ok c;
  on_disconnected = λ c. ok c;
  on_raw_recv = λ p n c. ok (c, n);
}

abbrev pub server_addr : SockAddr
server_addr = record { sin_family = af_inet; s_addr = 16777343; sin_port = 36895 }

abbrev pub empty : Buffers
empty = record { received = []; waiting = [] }

abbrev pub heap : Buffers → ℕ → Option Buffers
heap b p = if leb p 1 then some b else none

-- A connection over bufferevent 1 and socket 5.
abbrev pub open_with : {A : Type 0} → Buffers → A → Con (world A)
open_with b u = record {
  m_buf_e = some 1;
  m_addr = server_addr;
  m_fd = pos 5;
  m_msbs = 1048576;
  m_is_connect = true;
  m_no_ev_cb_log = false;
  m_rev_pack_len = 0;
  m_is_raw_read_cb = false;
  is_deleted = false;
  bevs = heap b;
  dying = λ p. none;
  user = u;
}
