-- ===== src/Http.antt =====
-- src/http.cc and include/http.h: a server and a client over libevent's evhttp. What is libevent's
-- is a parameter: the parsed form of a URI, and the buffers of a request. Texts are lists of bytes.

pub mod Drain
pub mod Client
pub mod Svr
use libevent_cpp.Prelude.{
  ℕ, zero, suc, ◌+◌, ◌≤◌, ◌≡◌, Bool, true, false, Option, none, some, List, [], ◌∷◌, ◌++◌, ◌==◌,
  if◌then◌else◌, length, take, drop,
}
use libevent_cpp.Prelude.Int.{ℤ}
use libevent_cpp.Prelude.Outcome.{Outcome, ok, fault, out_of_fuel}

-- struct evhttp_uri, as its accessors give it; `none` is NULL.
pub record Uri : Type 0 where
  pub host : Option (List ℕ)
  pub port : ℤ
  pub path : Option (List ℕ)
  pub query : Option (List ℕ)

-- An evbuffer that is read from the front, by copying out.
pub record Evbuffer : Type 1 where
  pub Buf : Type 0
  pub contents : Buf → List ℕ
  pub get_length : Buf → ℕ
  pub remove : Buf → ℕ → List ℕ × Buf
  pub get_length_lem : (b : Buf) → get_length b ≡ length (contents b)
  pub remove_lem : (b : Buf) (n : ℕ) → (remove b n).0 ≡ take n (contents b)
  pub contents-remove : (b : Buf) (n : ℕ) → contents (remove b n).1 ≡ drop n (contents b)

-- A std::string seen through c_str(): it ends at the first zero byte.
unfoldable pub c_str : List ℕ → List ℕ
c_str [] = []
c_str (x ∷ xs) = let rest = c_str xs in if x == 0 then [] else x ∷ rest
