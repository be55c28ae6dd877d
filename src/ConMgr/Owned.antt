-- ===== src/ConMgr/Owned.antt =====
-- Who owns the connection objects of src/listener.cc: the registry, or the list of those that wait to
-- be deleted.
use libevent_cpp.Prelude.{
  ℕ, ◌+◌, ◌≤◌, ◌≡◌, refl, subst, ◌⊎◌, inl, inr, true, false, Option, none, some, List, [], ◌∷◌,
  ◌++◌, arith, ◌==◌, if◌then◌else◌, Bool-cases, Option-cases, ==_iff,
}
use libevent_cpp.Prelude.Outcome.{ok}
use libevent_cpp.ConMgr.{
  lookup, erase, pointers, ConMgr, new_con_mgr, find_conn, post_del_conn, svr_id, next_seed,
  set_obj, create_connect_for_listener, delete_con, delete_all, on_timer_del_conn, destroy_con_mgr,
}
use libevent_cpp.ConMgr.Registry.{
  count, keys, count-append, count-erase, count-keys-erase, count-assign, count-keys-assign,
  lookup_absent, count_absent, lookup-erase_ne,
}

abbrev pub alive : Option ℕ → ℕ
alive none = 0
alive (some id) = 1

pub record IsValid (m : ConMgr) : Type 0 where
  -- The references to an address, in the registry and among those to be deleted: one if an object
  -- lives there, and none otherwise.
  pub owned : (q : ℕ) → count q (pointers m.m_all_connector) + count q m.m_vwdc ≡ alive (m.objs q)
  pub keyed : (j : ℕ) → count j (keys m.m_all_connector) ≤ 1

pub new_con_mgr-IsValid : (seed : ℕ) → IsValid (new_con_mgr seed)
unfolding new_con_mgr
new_con_mgr-IsValid seed = record { owned = λ q. omega arith; keyed = λ j. omega arith }

pub post_del_conn-IsValid : (id : ℕ) (m : ConMgr) → IsValid m → IsValid (post_del_conn id m).0
unfolding post_del_conn
post_del_conn-IsValid id m v = elim (Option-cases (lookup id m.m_all_connector)) [
  | inl e ↦ rw (e, post_del_conn) v
  | inr (p, e) ↦
      rw (e, post_del_conn)
        (record {
          owned = λ q. omega (
            arith,
            v.owned q,
            count-erase q id p m.m_all_connector e,
            count-append q m.m_vwdc (p ∷ []),
          );
          keyed = λ j. omega (arith, v.keyed j, count-keys-erase j id p m.m_all_connector e);
        })
]

alive-set_obj :
    (objs : ℕ → Option ℕ) (p id q : ℕ)
    → objs p ≡ none
    → alive (set_obj objs p (some id) q) ≡ alive (objs q) + (if p == q then 1 else 0)
alive-set_obj objs p id q h = elim (Bool-cases (p == q)) [
  | inl e ↦ let same : p ≡ q = (==_iff p q).0 e in rw (e, ← same, h)
  | inr e ↦ rw e (omega arith)
]

-- An object made at a free address, under an identifier that is not in use.
pub create-IsValid :
    (p sec : ℕ) (m : ConMgr)
    → IsValid m
    → m.objs p ≡ none
    → lookup (svr_id sec (next_seed m.seed)) m.m_all_connector ≡ none
    → IsValid (create_connect_for_listener (some p) sec m).0
unfolding create_connect_for_listener
create-IsValid p sec m v free fresh =
    let id = svr_id sec (next_seed m.seed) in
    record {
      owned = λ q. omega (
        arith,
        v.owned q,
        count-assign q id p m.m_all_connector fresh,
        alive-set_obj m.objs p id q free,
      );
      keyed = λ j. elim (Bool-cases (id == j)) [
        | inl e ↦
            let same : id ≡ j = (==_iff id j).0 e in
            omega (
              arith,
              rw e at (count-keys-assign j id p m.m_all_connector fresh),
              subst (λ k. count k (keys m.m_all_connector) ≡ 0) same
                  (count_absent id m.m_all_connector fresh),
            )
        | inr e ↦
            omega (arith, v.keyed j, rw e at (count-keys-assign j id p m.m_all_connector fresh))
      ];
    }

alive-delete :
    (objs : ℕ → Option ℕ) (p id q : ℕ)
    → objs p ≡ some id
    → alive (set_obj objs p none q) + (if p == q then 1 else 0) ≡ alive (objs q)
alive-delete objs p id q h = elim (Bool-cases (p == q)) [
  | inl e ↦ let same : p ≡ q = (==_iff p q).0 e in rw (e, ← same, h)
  | inr e ↦ rw e (omega arith)
]

-- Objects that are there as often as they are deleted are deleted with no fault, and no others.
pub delete_all-alive :
    (ps : List ℕ) (objs : ℕ → Option ℕ)
    → ((q : ℕ) → count q ps ≤ alive (objs q))
    → (objs' : ℕ → Option ℕ) × (delete_all ps objs ≡ ok objs')
      × ((q : ℕ) → alive (objs' q) + count q ps ≡ alive (objs q))
unfolding delete_all
delete_all-alive [] objs h = (objs, refl, λ q. omega arith)
delete_all-alive (p ∷ ps) objs h = elim (Option-cases (objs p)) [
  | inl e ↦ absurd (ground (arith, h p, e))
  | inr (id, e) ↦
      let objs1 = set_obj objs p none in
      let (objs', run, left) =
        delete_all-alive ps objs1 (λ q. omega (arith, h q, alive-delete objs p id q e)) in
      (objs', rw (e, delete_con) run, λ q. omega (arith, left q, alive-delete objs p id q e))
]

-- The timer deletes what waits, each object once, and with no fault; afterwards nothing waits.
pub on_timer_del_conn-IsValid :
    (m : ConMgr)
    → IsValid m
    → (m' : ConMgr) × (on_timer_del_conn m ≡ ok m')
      × IsValid m'
      × (m'.m_all_connector ≡ m.m_all_connector)
      × (m'.m_vwdc ≡ [])
unfolding on_timer_del_conn
on_timer_del_conn-IsValid m v =
    let (objs, run, left) = delete_all-alive m.m_vwdc m.objs (λ q. omega (arith, v.owned q)) in
    (
      record m { m_vwdc = []; objs = objs },
      rw run refl,
      record { owned = λ q. omega (arith, v.owned q, left q); keyed = v.keyed },
      refl,
      refl,
    )

-- The destructor of a valid manager deletes what is registered with no fault, and leaves alive
-- exactly the objects that wait to be deleted, as many as wait.
pub destroy_con_mgr_leaks :
    (m : ConMgr)
    → IsValid m
    → (m' : ConMgr) × (destroy_con_mgr m ≡ ok m') × ((q : ℕ) → alive (m'.objs q) ≡ count q m.m_vwdc)
unfolding destroy_con_mgr
destroy_con_mgr_leaks m v =
    let (objs, run, left) =
      delete_all-alive (pointers m.m_all_connector) m.objs (λ q. omega (arith, v.owned q)) in
    (
      record m { m_all_connector = []; objs = objs },
      rw run refl,
      λ q. omega (arith, v.owned q, left q),
    )

-- PostDelConn on a valid manager, of a registered identifier, unregisters it, and only it, and keeps
-- the object alive, at the end of those that wait to be deleted; of any other it changes nothing.
pub post_del_conn_cases :
    (id : ℕ) (m : ConMgr)
    → IsValid m
    → ((find_conn id m ≡ none) × (post_del_conn id m ≡ (m, false)))
      ⊎ ((p : ℕ) × (m' : ConMgr) × (find_conn id m ≡ some p)
          × (post_del_conn id m ≡ (m', true))
          × (find_conn id m' ≡ none)
          × ((j : ℕ) → find_conn j m' ≡ (if id == j then none else find_conn j m))
          × (m'.objs ≡ m.objs)
          × (m'.m_vwdc ≡ m.m_vwdc ++ p ∷ []))
unfolding post_del_conn find_conn
post_del_conn_cases id m v = elim (Option-cases (lookup id m.m_all_connector)) [
  | inl e ↦ inl (e, rw (e, post_del_conn))
  | inr (p, e) ↦ inr (
    p,
    record m { m_all_connector = erase id m.m_all_connector; m_vwdc = m.m_vwdc ++ p ∷ [] },
    e,
    rw (e, post_del_conn),
    lookup_absent id (erase id m.m_all_connector)
        (ground (arith, v.keyed id, count-keys-erase id id p m.m_all_connector e)),
    λ j. elim (Bool-cases (id == j)) [
      | inl q ↦
          let same : id ≡ j = (==_iff id j).0 q in
          rw q (
            rw (← same) (
              lookup_absent id (erase id m.m_all_connector)
                (ground (arith, v.keyed id, count-keys-erase id id p m.m_all_connector e))))
      | inr q ↦ rw q (lookup-erase_ne id j m.m_all_connector q)
    ],
    refl,
    refl,
  )
]

pub post_del_conn_absent :
    (id : ℕ) (m : ConMgr) → find_conn id m ≡ none → post_del_conn id m ≡ (m, false)
unfolding post_del_conn find_conn
post_del_conn_absent id m e = rw (e, post_del_conn)
