-- ===== src/Bytes.antt =====
-- include/connector.h, auto_hton and auto_ntoh at uint16_t and uint32_t, on a little-endian host:
-- there htonl and ntohl reverse the bytes. An object of type uint32_t lies in memory lowest byte
-- first; a byte is a number below 256.
use libevent_cpp.Prelude.{
  ℕ, zero, suc, ◌+◌, ◌*◌, ◌/◌, ◌%◌, ◌^◌, ◌≤◌, ◌<◌, ◌≡◌, refl, List, [], ◌∷◌, ◌++◌, arith, length,
  get_or, drop, take,
}

unfoldable pub bswap16 : ℕ → ℕ
bswap16 n = n % 256 * 256 + n / 256 % 256

unfoldable pub bswap32 : ℕ → ℕ
bswap32 n = n % 256 * 2 ^ 24 + n / 256 % 256 * 2 ^ 16 + n / 2 ^ 16 % 256 * 256 + n / 2 ^ 24 % 256

unfoldable pub auto_hton16 : ℕ → ℕ
unfolding bswap16
auto_hton16 n = bswap16 n

unfoldable pub auto_ntoh16 : ℕ → ℕ
unfolding bswap16
auto_ntoh16 n = bswap16 n

unfoldable pub auto_hton32 : ℕ → ℕ
unfolding bswap32
auto_hton32 n = bswap32 n

unfoldable pub auto_ntoh32 : ℕ → ℕ
unfolding bswap32
auto_ntoh32 n = bswap32 n

-- The four bytes of a uint32_t object, and the value that four bytes hold.
unfoldable pub store_u32 : ℕ → List ℕ
store_u32 n = (n % 256) ∷ (n / 256 % 256) ∷ (n / 2 ^ 16 % 256) ∷ (n / 2 ^ 24 % 256) ∷ []

unfoldable pub load_u32 : List ℕ → ℕ
load_u32 xs = get_or xs 0 0 + get_or xs 1 0 * 256 + get_or xs 2 0 * 2 ^ 16 + get_or xs 3 0 * 2 ^ 24

-- The number that the first four bytes of a stream spell in network order.
unfoldable pub wire_u32 : List ℕ → ℕ
wire_u32 xs = get_or xs 0 0 * 2 ^ 24 + get_or xs 1 0 * 2 ^ 16 + get_or xs 2 0 * 256 + get_or xs 3 0

abbrev pub AllBytes : List ℕ → Type 0
AllBytes [] = Unit {0}
AllBytes (x ∷ xs) = (x < 256) × AllBytes xs

pub AllBytes-drop : (n : ℕ) (xs : List ℕ) → AllBytes xs → AllBytes (drop n xs)
AllBytes-drop zero xs h = h
AllBytes-drop (suc n) [] h = h
AllBytes-drop (suc n) (x ∷ xs) h = AllBytes-drop n xs h.1

pub AllBytes-append : (xs ys : List ℕ) → AllBytes xs → AllBytes ys → AllBytes (xs ++ ys)
AllBytes-append [] ys h k = k
AllBytes-append (x ∷ xs) ys h k = (h.0, AllBytes-append xs ys h.1 k)

pub AllBytes-append_left : (xs ys : List ℕ) → AllBytes (xs ++ ys) → AllBytes xs
AllBytes-append_left [] ys h = tt
AllBytes-append_left (x ∷ xs) ys h = (h.0, AllBytes-append_left xs ys h.1)

pub AllBytes-append_right : (xs ys : List ℕ) → AllBytes (xs ++ ys) → AllBytes ys
AllBytes-append_right [] ys h = h
AllBytes-append_right (x ∷ xs) ys h = AllBytes-append_right xs ys h.1

pub length-store_u32 : (n : ℕ) → length (store_u32 n) ≡ 4
unfolding store_u32
length-store_u32 n = refl

pub store_u32-AllBytes : (n : ℕ) → AllBytes (store_u32 n)
unfolding store_u32
store_u32-AllBytes n = omega arith

pub load_u32-store_u32 : (n : ℕ) (rest : List ℕ) → n < 2 ^ 32 → load_u32 (store_u32 n ++ rest) ≡ n
unfolding load_u32 store_u32
load_u32-store_u32 n rest h = omega arith

-- What auto_ntoh makes of the bytes in memory is the number on the wire.
ntoh-load_u32 :
    (xs : List ℕ) → 4 ≤ length xs → AllBytes xs → auto_ntoh32 (load_u32 xs) ≡ wire_u32 xs
unfolding auto_ntoh32 load_u32 wire_u32
ntoh-load_u32 [] h b = elim h [ ]
ntoh-load_u32 (x ∷ []) h b = absurd (omega arith)
ntoh-load_u32 (x ∷ y ∷ []) h b = absurd (omega arith)
ntoh-load_u32 (x ∷ y ∷ z ∷ []) h b = absurd (omega arith)
ntoh-load_u32 (x ∷ y ∷ z ∷ w ∷ xs) h b = omega arith

pub wire_u32-lt : (xs : List ℕ) → AllBytes xs → wire_u32 xs < 2 ^ 32
unfolding wire_u32
wire_u32-lt [] b = omega arith
wire_u32-lt (x ∷ []) b = omega arith
wire_u32-lt (x ∷ y ∷ []) b = omega arith
wire_u32-lt (x ∷ y ∷ z ∷ []) b = omega arith
wire_u32-lt (x ∷ y ∷ z ∷ w ∷ xs) b = omega arith

-- The header that the sender stores spells its length on the wire.
pub wire_u32-hton :
    (n : ℕ) (rest : List ℕ) → n < 2 ^ 32 → wire_u32 (store_u32 (auto_hton32 n) ++ rest) ≡ n
unfolding wire_u32 store_u32 auto_hton32
wire_u32-hton n rest h = omega arith

pub wire_u32-append : (xs ys : List ℕ) → 4 ≤ length xs → wire_u32 (xs ++ ys) ≡ wire_u32 xs
unfolding wire_u32
wire_u32-append [] ys h = elim h [ ]
wire_u32-append (x ∷ []) ys h = absurd (omega arith)
wire_u32-append (x ∷ y ∷ []) ys h = absurd (omega arith)
wire_u32-append (x ∷ y ∷ z ∷ []) ys h = absurd (omega arith)
wire_u32-append (x ∷ y ∷ z ∷ w ∷ xs) ys h = refl

-- Conversion to network order and back is the identity, at both widths.
-- auto_ntoh undoes auto_hton, on every uint32_t.
ntoh-hton : (n : ℕ) → n < 2 ^ 32 → auto_ntoh32 (auto_hton32 n) ≡ n
unfolding auto_ntoh32 auto_hton32
ntoh-hton n h = omega arith

ntoh16-hton16 : (n : ℕ) → n < 2 ^ 16 → auto_ntoh16 (auto_hton16 n) ≡ n
unfolding auto_ntoh16 auto_hton16
ntoh16-hton16 n h = omega arith

pub drop-store_u32 : (n : ℕ) (rest : List ℕ) → drop 4 (store_u32 n ++ rest) ≡ rest
unfolding store_u32
drop-store_u32 n rest = refl

-- The bytes of a header are those of its number: storing the number in network order gives them back.
pub store-hton-wire_u32 :
    (xs : List ℕ)
    → 4 ≤ length xs
    → AllBytes xs
    → store_u32 (auto_hton32 (wire_u32 xs)) ++ drop 4 xs ≡ xs
unfolding store_u32 auto_hton32 wire_u32
store-hton-wire_u32 [] h b = elim h [ ]
store-hton-wire_u32 (x ∷ []) h b = absurd (omega arith)
store-hton-wire_u32 (x ∷ y ∷ []) h b = absurd (omega arith)
store-hton-wire_u32 (x ∷ y ∷ z ∷ []) h b = absurd (omega arith)
store-hton-wire_u32 (x ∷ y ∷ z ∷ w ∷ xs) h b = ground arith

-- A header read through a pointer to it.
pub ntoh-load_take :
    (xs : List ℕ) → 4 ≤ length xs → AllBytes xs → auto_ntoh32 (load_u32 (take 4 xs)) ≡ wire_u32 xs
unfolding auto_ntoh32 load_u32 wire_u32
ntoh-load_take [] h b = elim h [ ]
ntoh-load_take (x ∷ []) h b = absurd (omega arith)
ntoh-load_take (x ∷ y ∷ []) h b = absurd (omega arith)
ntoh-load_take (x ∷ y ∷ z ∷ []) h b = absurd (omega arith)
ntoh-load_take (x ∷ y ∷ z ∷ w ∷ xs) h b = omega arith

-- Past a stored header, counting goes on in the rest.
pub take-store_u32 :
    (m n : ℕ) (rest : List ℕ) → take (4 + n) (store_u32 m ++ rest) ≡ store_u32 m ++ take n rest
unfolding store_u32
take-store_u32 m n rest = let e : 4 + n ≡ suc (suc (suc (suc n))) = omega arith in rw e

pub drop-store_u32_add :
    (m n : ℕ) (rest : List ℕ) → drop (4 + n) (store_u32 m ++ rest) ≡ drop n rest
unfolding store_u32
drop-store_u32_add m n rest = let e : 4 + n ≡ suc (suc (suc (suc n))) = omega arith in rw e
