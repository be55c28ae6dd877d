-- ===== src/ConMgr/Walk.antt =====
-- Any history of a BaseConMgr, and Foreach with a callback that calls the manager.
use libevent_cpp.Prelude.{
  ℕ, ◌≤◌, ◌≡◌, refl, inl, inr, Option, none, some, List, [], ◌∷◌, arith, Option-cases, subst, sym,
}
use libevent_cpp.Prelude.Outcome.{Outcome, ok}
use libevent_cpp.ConMgr.{
  Entries, lookup, pointers, ConMgr, new_con_mgr, post_del_conn, svr_id, next_seed,
  create_connect_for_listener, on_timer_del_conn, visit, foreach,
}
use libevent_cpp.ConMgr.Registry.{count}
use libevent_cpp.ConMgr.Owned.{
  alive, IsValid, new_con_mgr-IsValid, post_del_conn-IsValid, create-IsValid,
  on_timer_del_conn-IsValid,
}

-- What user code can have the manager do inside a callback.
pub data Call : Type 0 where
  post_del : ℕ → Call
  create : ℕ → ℕ → Call

abbrev pub call : Call → ConMgr → ConMgr
call (post_del id) m = (post_del_conn id m).0
call (create p sec) m = (create_connect_for_listener (some p) sec m).0

-- An object is made at a free address, under an identifier that is not in use.
abbrev pub Fresh : Call → ConMgr → Type 0
Fresh (post_del id) m = Unit {0}
Fresh (create p sec) m =
    (m.objs p ≡ none) × (lookup (svr_id sec (next_seed m.seed)) m.m_all_connector ≡ none)

pub call-IsValid : (c : Call) (m : ConMgr) → IsValid m → Fresh c m → IsValid (call c m)
call-IsValid (post_del id) m v h = post_del_conn-IsValid id m v
call-IsValid (create p sec) m v h = create-IsValid p sec m v h.0 h.1

-- Calls, and the timer between them.
pub data Reach (m : ConMgr) : ConMgr → Type 0 where
  here : Reach m m
  calls : {n : ConMgr} → Reach m n → (c : Call) → Fresh c n → Reach m (call c n)
  timer : {n : ConMgr} → Reach m n → (o : ConMgr) → on_timer_del_conn n ≡ ok o → Reach m o

pub Reach-IsValid : {m n : ConMgr} → IsValid m → Reach m n → IsValid n
Reach-IsValid v here = v
Reach-IsValid v (calls {n} r c h) = call-IsValid c n (Reach-IsValid v r) h
Reach-IsValid v (timer {n} r o e) =
    let (o', e', v', same, empty) = on_timer_del_conn-IsValid n (Reach-IsValid v r) in
    let eq : o' ≡ o = cc in subst IsValid eq v'

-- In every history of a manager, in which new objects get free addresses and identifiers, the
-- timer deletes with no fault; afterwards an address is in the registry exactly once if an object
-- lives there, and otherwise not at all.
pub timer_safe :
    (seed : ℕ) (m : ConMgr)
    → Reach (new_con_mgr seed) m
    → (m' : ConMgr) × (on_timer_del_conn m ≡ ok m')
      × ((q : ℕ) → count q (pointers m'.m_all_connector) ≡ alive (m'.objs q))
timer_safe seed m r =
    let v = Reach-IsValid (new_con_mgr-IsValid seed) r in
    let (m', e, v', same, empty) = on_timer_del_conn-IsValid m v in
    (m', e, λ q. omega (arith, v'.owned q, subst (λ l. count q l ≡ 0) (sym empty) refl))

-- A callback that may make calls to the manager, and ends well.
pub record Behaves (cb : ℕ → ConMgr → Outcome ConMgr) : Type 0 where
  pub cb_lem :
      (p : ℕ) (m : ConMgr)
      → IsValid m
      → (m' : ConMgr) × (cb p m ≡ ok m')
        × IsValid m'
        × ((q : ℕ) → alive (m.objs q) ≤ alive (m'.objs q))

-- The objects that PostDelConn takes off the registry stay alive.
pub post_del-Behaves : (f : ℕ → ℕ) → Behaves (λ p m. ok (post_del_conn (f p) m).0)
unfolding post_del_conn
post_del-Behaves f = record {
  cb_lem = λ p m v. (
    (post_del_conn (f p) m).0,
    refl,
    post_del_conn-IsValid (f p) m v,
    λ q. elim (Option-cases (lookup (f p) m.m_all_connector)) [
      | inl e ↦ rw (e, post_del_conn) (omega arith)
      | inr (r, e) ↦ rw (e, post_del_conn) (omega arith)
    ],
  );
}

abbrev AllAlive : List ℕ → ConMgr → Type 0
AllAlive [] m = Unit {0}
AllAlive (p ∷ ps) m = (alive (m.objs p) ≡ 1) × AllAlive ps m

AllAlive-mono :
    (ps : List ℕ) (m n : ConMgr)
    → ((q : ℕ) → alive (m.objs q) ≤ alive (n.objs q))
    → AllAlive ps m
    → AllAlive ps n
AllAlive-mono [] m n h a = tt
AllAlive-mono (p ∷ ps) m n h a =
    (omega (arith, h p, alive-le (n.objs p)), AllAlive-mono ps m n h a.1)
  where
    alive-le : (o : Option ℕ) → alive o ≤ 1
    alive-le none = omega arith
    alive-le (some id) = omega arith

visit-safe :
    (cb : ℕ → ConMgr → Outcome ConMgr) (ps : List ℕ) (m : ConMgr)
    → Behaves cb
    → IsValid m
    → AllAlive ps m
    → (m' : ConMgr) × (visit cb ps m ≡ ok m')
      × IsValid m'
      × ((q : ℕ) → alive (m.objs q) ≤ alive (m'.objs q))
unfolding visit
visit-safe cb [] m b v a = (m, refl, v, λ q. omega arith)
visit-safe cb (p ∷ ps) m b v a = elim (Option-cases (m.objs p)) [
  | inl e ↦ absurd (ground (arith, a.0, e))
  | inr (id, e) ↦
      let (m1, e1, v1, h1) = b.cb_lem p m v in
      let (m2, e2, v2, h2) = visit-safe cb ps m1 b v1 (AllAlive-mono ps m m1 h1 a.1) in
      (m2, rw (e, visit) (rw e1 e2), v2, λ q. omega (arith, h1 q, h2 q))
]

registered-AllAlive :
    (es : Entries) (m : ConMgr)
    → ((q : ℕ) → count q (pointers es) ≤ alive (m.objs q))
    → AllAlive (pointers es) m
registered-AllAlive [] m h = tt
registered-AllAlive ((k, p) ∷ es) m h =
    (one (m.objs p) (ground (arith, h p)), registered-AllAlive es m (λ q. ground (arith, h q)))
  where
    one : (o : Option ℕ) → 1 ≤ alive o → alive o ≡ 1
    one none h = absurd (omega arith)
    one (some id) h = refl

-- Foreach over a valid manager, with a callback that keeps it valid and deletes no object, ends
-- with no fault, so that every reference that it hands out is to a live object, and the manager is
-- valid and no object is gone at the end.
pub foreach_safe :
    (cb : ℕ → ConMgr → Outcome ConMgr) (m : ConMgr)
    → Behaves cb
    → IsValid m
    → (m' : ConMgr) × (foreach cb m ≡ ok m')
      × IsValid m'
      × ((q : ℕ) → alive (m.objs q) ≤ alive (m'.objs q))
unfolding foreach
foreach_safe cb m b v =
    visit-safe cb (pointers m.m_all_connector) m b v
      (registered-AllAlive m.m_all_connector m (λ q. omega (arith, v.owned q)))
