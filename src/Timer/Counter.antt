-- ===== src/Timer/Counter.antt =====
-- The static counter Timer::s_time_cnt, a uint32_t: how many Timer objects there are.
use libevent_cpp.Prelude.{
  ℕ, suc, ◌+◌, ◌-◌, ◌%◌, ◌^◌, ◌<◌, ◌≡◌, refl, Bool, true, false, List, [], ◌∷◌, arith, ltb, none,
}
use libevent_cpp.Timer.{Timer}

pub count_construct : ℕ → ℕ
count_construct s_time_cnt = (s_time_cnt + 1) % 2 ^ 32

-- With the destructor's check: `true` if it logs an error.
pub count_destroy : ℕ → ℕ × Bool
count_destroy s_time_cnt = let n = (s_time_cnt + 2 ^ 32 - 1) % 2 ^ 32 in (n, ltb (2 ^ 31 - 1) n)

pub data Life : Type 0 where
  construct destroy : Life

-- The counter and the number of errors logged, after a history.
pub count_lives : List Life → ℕ → ℕ × ℕ
count_lives [] n = (n, 0)
count_lives (construct ∷ ls) n = count_lives ls (count_construct n)
count_lives (destroy ∷ ls) n =
    let d = count_destroy n in
    let rest = count_lives ls d.0 in (rest.0, elim d.1 [ true ↦ suc rest.1 | false ↦ rest.1 ])

-- A history that destroys only what it has made, starting from `n` objects, and never has 2^31
-- objects or more, ends with `k` objects.
pub data Balanced : ℕ → List Life → ℕ → Type 0 where
  ends : (n : ℕ) → n < 2 ^ 31 → Balanced n [] n
  made :
      {n k : ℕ} {ls : List Life}
      → n + 1 < 2 ^ 31
      → Balanced (suc n) ls k
      → Balanced n (construct ∷ ls) k
  gone :
      {n k : ℕ} {ls : List Life} → n < 2 ^ 31 → Balanced n ls k → Balanced (suc n) (destroy ∷ ls) k

-- After a history that destroys only what it has made, and never has 2^31 objects, the counter is
-- the number of objects, and no error was logged.
count_lives-Balanced : {n k : ℕ} {ls : List Life} → Balanced n ls k → count_lives ls n ≡ (k, 0)
unfolding count_lives count_construct count_destroy
count_lives-Balanced (ends n h) = refl
count_lives-Balanced (made {n} {k} {ls} h b) =
    let e : (n + 1) % 2 ^ 32 ≡ suc n = omega arith in rw e (count_lives-Balanced b)
count_lives-Balanced (gone {n} {k} {ls} h b) = ground (arith, count_lives-Balanced b)

-- Destroying an object when none is left makes the counter wrap, and is logged.
count_destroy_zero : count_destroy 0 ≡ (2 ^ 32 - 1, true)
unfolding count_destroy
count_destroy_zero = refl

-- ~Timer: event_free releases the event, pending or not.
unfoldable destroy_timer : Timer → ℕ → Timer × (ℕ × Bool)
unfolding count_destroy
destroy_timer t s_time_cnt = (record t { m_event = none }, count_destroy s_time_cnt)
