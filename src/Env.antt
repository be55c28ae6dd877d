-- ===== src/Env.antt =====
-- What include/connector.h and src/connector.cc take from outside: the calls of libevent's
-- bufferevent and evbuffer functions, inet_addr, and the state of the user's own code. The laws say
-- what the libevent manual documents: pullup gives a pointer to the first n unread bytes when so
-- many are there, and more than none (with memory to spare), drain removes bytes from the front (all of them, when
-- asked for more), and a write that returns 0 appends to the output.
use libevent_cpp.Prelude.{
  ℕ, ◌≤◌, ◌<◌, ◌≡◌, Bool, true, false, Option, some, List, ◌++◌, length, take, drop,
}

pub record Env : Type 1 where
  pub Bev : Type 0
  pub User : Type 0
  -- The bytes received and not yet drained, and those waiting to be sent.
  pub input : Bev → List ℕ
  pub output : Bev → List ℕ
  -- evbuffer_get_length(bufferevent_get_input(bev)).
  pub input_length : Bev → ℕ
  -- evbuffer_pullup on the input; `none` is NULL.
  pub pullup : Bev → ℕ → Option (List ℕ)
  -- A store through the pointer that pullup returned.
  pub overwrite : Bev → List ℕ → Bev
  pub drain : Bev → ℕ → Bev
  -- The length of bufferevent_get_output(bev); `none` if that evbuffer is NULL.
  pub output_length : Bev → Option ℕ
  -- bufferevent_write; `true` if it returns 0.
  pub write : Bev → List ℕ → Bev × Bool
  -- Bytes come in from the socket.
  pub receive : Bev → List ℕ → Bev
  pub setwatermark : Bev → ℕ → ℕ → ℕ → Bev
  pub inet_addr : List ℕ → ℕ
  pub input_length_lem : (b : Bev) → input_length b ≡ length (input b)
  pub pullup_lem :
      (b : Bev) (n : ℕ) → 0 < n → n ≤ length (input b) → pullup b n ≡ some (take n (input b))
  pub input-overwrite :
      (b : Bev) (xs : List ℕ)
      → length xs ≤ length (input b)
      → input (overwrite b xs) ≡ xs ++ drop (length xs) (input b)
  pub input-drain : (b : Bev) (n : ℕ) → input (drain b n) ≡ drop n (input b)
  -- What is done to the input leaves the output alone.
  pub output-overwrite : (b : Bev) (xs : List ℕ) → output (overwrite b xs) ≡ output b
  pub output-drain : (b : Bev) (n : ℕ) → output (drain b n) ≡ output b
  pub output-receive : (b : Bev) (xs : List ℕ) → output (receive b xs) ≡ output b
  pub output_length_lem : (b : Bev) (n : ℕ) → output_length b ≡ some n → n ≡ length (output b)
  pub input-receive : (b : Bev) (xs : List ℕ) → input (receive b xs) ≡ input b ++ xs
  pub input-write : (b : Bev) (xs : List ℕ) → input (write b xs).0 ≡ input b
  pub output-write :
      (b : Bev) (xs : List ℕ) → (write b xs).1 ≡ true → output (write b xs).0 ≡ output b ++ xs
  pub output-write_fail :
      (b : Bev) (xs : List ℕ) → (write b xs).1 ≡ false → output (write b xs).0 ≡ output b
