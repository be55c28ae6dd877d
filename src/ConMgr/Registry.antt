-- ===== src/ConMgr/Registry.antt =====
-- Laws of the entries of m_all_connector.
use libevent_cpp.Prelude.{
  ℕ, ◌+◌, ◌≡◌, refl, false, none, some, List, [], ◌∷◌, ◌++◌, arith, ◌==◌, if◌then◌else◌,
}
use libevent_cpp.ConMgr.{Entries, lookup, erase, assign, pointers}

-- How often an address stands in a list.
abbrev pub count : ℕ → List ℕ → ℕ
count q [] = 0
count q (p ∷ ps) = (if p == q then 1 else 0) + count q ps

abbrev pub keys : Entries → List ℕ
keys [] = []
keys ((k, p) ∷ es) = k ∷ keys es

pub count-append : (q : ℕ) (ps qs : List ℕ) → count q (ps ++ qs) ≡ count q ps + count q qs
count-append q [] qs = omega arith
count-append q (p ∷ ps) qs = omega (arith, count-append q ps qs)

pub count-erase :
    (q id p : ℕ) (es : Entries)
    → lookup id es ≡ some p
    → count q (pointers es) ≡ count q (pointers (erase id es)) + (if p == q then 1 else 0)
unfolding lookup erase
count-erase q id p [] h = cc
count-erase q id p ((k, r) ∷ es) h = ground (arith, count-erase q id p es)

pub count-keys-erase :
    (j id p : ℕ) (es : Entries)
    → lookup id es ≡ some p
    → count j (keys es) ≡ count j (keys (erase id es)) + (if id == j then 1 else 0)
unfolding lookup erase
count-keys-erase j id p [] h = cc
count-keys-erase j id p ((k, r) ∷ es) h = ground (arith, count-keys-erase j id p es)

pub count-assign :
    (q id p : ℕ) (es : Entries)
    → lookup id es ≡ none
    → count q (pointers (assign id p es)) ≡ count q (pointers es) + (if p == q then 1 else 0)
unfolding lookup assign
count-assign q id p [] h = omega arith
count-assign q id p ((k, r) ∷ es) h = ground (arith, count-assign q id p es)

pub count-keys-assign :
    (j id p : ℕ) (es : Entries)
    → lookup id es ≡ none
    → count j (keys (assign id p es)) ≡ count j (keys es) + (if id == j then 1 else 0)
unfolding lookup assign
count-keys-assign j id p [] h = omega arith
count-keys-assign j id p ((k, r) ∷ es) h = ground (arith, count-keys-assign j id p es)

pub lookup_absent : (id : ℕ) (es : Entries) → count id (keys es) ≡ 0 → lookup id es ≡ none
unfolding lookup
lookup_absent id [] h = refl
lookup_absent id ((k, r) ∷ es) h = ground (arith, lookup_absent id es)

pub lookup-erase_ne :
    (id j : ℕ) (es : Entries) → (id == j) ≡ false → lookup j (erase id es) ≡ lookup j es
unfolding lookup erase
lookup-erase_ne id j [] h = refl
lookup-erase_ne id j ((k, r) ∷ es) h = ground (arith, lookup-erase_ne id j es h)

pub lookup-assign :
    (id j p : ℕ) (es : Entries)
    → lookup j (assign id p es) ≡ (if id == j then some p else lookup j es)
unfolding lookup assign
lookup-assign id j p [] = refl
lookup-assign id j p ((k, r) ∷ es) = ground (arith, lookup-assign id j p es)

pub count_absent : (id : ℕ) (es : Entries) → lookup id es ≡ none → count id (keys es) ≡ 0
unfolding lookup
count_absent id [] h = refl
count_absent id ((k, r) ∷ es) h = ground (arith, count_absent id es)
