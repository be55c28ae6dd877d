-- ===== src/ConMgr/Ids.antt =====
-- The identifiers of SvrCon: the time in seconds above a counter of 32 bits.
use libevent_cpp.Prelude.{
  ℕ, zero, suc, ◌+◌, ◌%◌, ◌^◌, ◌<◌, ◌≡◌, refl, some, List, [], ◌∷◌, arith, get_elem?,
}
use libevent_cpp.ConMgr.{svr_id, next_seed}

-- The identifiers of the objects that are constructed at the given times, one after the other.
unfoldable pub svr_ids : ℕ → List ℕ → List ℕ
svr_ids seed [] = []
svr_ids seed (sec ∷ secs) = svr_id sec (next_seed seed) ∷ svr_ids (next_seed seed) secs

svr_ids_elem :
    (secs : List ℕ) (seed i id : ℕ)
    → get_elem? (svr_ids seed secs) i ≡ some id
    → (sec : ℕ) × (get_elem? secs i ≡ some sec) × (id ≡ svr_id sec ((seed + i + 1) % 2 ^ 32))
unfolding svr_ids
svr_ids_elem [] seed i id h = cc
svr_ids_elem (sec ∷ secs) seed zero id h = (sec, refl, ground arith)
svr_ids_elem (sec ∷ secs) seed (suc i) id h =
    let (s, e, f) = svr_ids_elem secs (next_seed seed) i id h in
    let wraps : (next_seed seed + i + 1) % 2 ^ 32 ≡ (seed + suc i + 1) % 2 ^ 32 = omega arith in
    (s, e, rw (← wraps) f)

-- Two objects of one process have the same identifier only if they were constructed in the same
-- second, and a multiple of 2^32 constructions apart, while the time fits 32 bits.
pub svr_ids_unique :
    (secs : List ℕ) (seed i j id s t : ℕ)
    → get_elem? (svr_ids seed secs) i ≡ some id
    → get_elem? (svr_ids seed secs) j ≡ some id
    → get_elem? secs i ≡ some s
    → get_elem? secs j ≡ some t
    → s < 2 ^ 32
    → t < 2 ^ 32
    → (s ≡ t) × ((seed + i + 1) % 2 ^ 32 ≡ (seed + j + 1) % 2 ^ 32)
unfolding svr_id
svr_ids_unique secs seed i j id s t h k a b p q =
    let (s', e, f) = svr_ids_elem secs seed i id h in
    let (t', e', f') = svr_ids_elem secs seed j id k in
    let s-eq : s' ≡ s = cc in
    let t-eq : t' ≡ t = cc in
    let one : id ≡ svr_id s ((seed + i + 1) % 2 ^ 32) = rw s-eq at f in
    let two : id ≡ svr_id t ((seed + j + 1) % 2 ^ 32) = rw t-eq at f' in
    (omega (arith, one, two), omega (arith, one, two))

-- Two objects of one process that are constructed fewer than 2^32 constructions apart have
-- different identifiers, whatever the clock says.
svr_ids_near :
    (secs : List ℕ) (seed i j a b : ℕ)
    → get_elem? (svr_ids seed secs) i ≡ some a
    → get_elem? (svr_ids seed secs) (i + suc j) ≡ some b
    → suc j < 2 ^ 32
    → ¬ (a ≡ b)
unfolding svr_id
svr_ids_near secs seed i j a b h k p same =
    let (s', e, f) = svr_ids_elem secs seed i a h in
    let (t', e', f') = svr_ids_elem secs seed (i + suc j) b k in omega (arith, f, f')
