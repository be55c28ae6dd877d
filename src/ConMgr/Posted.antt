-- ===== src/ConMgr/Posted.antt =====
-- What becomes of a connection that BaseConMgr::PostDelConn took off the registry.
use libevent_cpp.Prelude.{
  ℕ, ◌+◌, ◌≤◌, ◌≡◌, refl, ap, sym, ◌∙◌, inl, inr, Option, none, some, List, [], ◌∷◌, arith,
  Option-cases, if◌then◌else◌, true, ==_iff, ◌==◌,
}
use libevent_cpp.Prelude.Outcome.{ok, >>=-returns}
use libevent_cpp.ConMgr.{
  ConMgr, lookup, find_conn, post_del_conn, create_connect_for_listener, on_timer_del_conn,
  delete_con, delete_all, set_obj,
}
use libevent_cpp.ConMgr.Registry.{count, count-append}
use libevent_cpp.ConMgr.Owned.{
  alive, IsValid, post_del_conn-IsValid, post_del_conn_cases, delete_all-alive,
}
use libevent_cpp.ConMgr.Walk.{Call, post_del, create, call, Fresh, call-IsValid}

abbrev pub run_calls : List Call → ConMgr → ConMgr
run_calls [] m = m
run_calls (c ∷ cs) m = run_calls cs (call c m)

abbrev pub AllFresh : List Call → ConMgr → Type 0
AllFresh [] m = Unit {0}
AllFresh (c ∷ cs) m = Fresh c m × AllFresh cs (call c m)

run_calls-IsValid :
    (cs : List Call) (m : ConMgr) → IsValid m → AllFresh cs m → IsValid (run_calls cs m)
run_calls-IsValid [] m v h = v
run_calls-IsValid (c ∷ cs) m v h = run_calls-IsValid cs (call c m) (call-IsValid c m v h.0) h.1

-- No call takes an object off those that wait to be deleted.
call-waits : (c : Call) (m : ConMgr) (p : ℕ) → count p m.m_vwdc ≤ count p (call c m).m_vwdc
unfolding post_del_conn create_connect_for_listener
call-waits (post_del id) m p = elim (Option-cases (lookup id m.m_all_connector)) [
  | inl e ↦ ground (arith, e)
  | inr (q, e) ↦ ground (arith, e, count-append p m.m_vwdc (q ∷ []))
]
call-waits (create q sec) m p = omega arith

run_calls-waits :
    (cs : List Call) (m : ConMgr) (p : ℕ) → count p m.m_vwdc ≤ count p (run_calls cs m).m_vwdc
run_calls-waits [] m p = omega arith
run_calls-waits (c ∷ cs) m p = omega (arith, call-waits c m p, run_calls-waits cs (call c m) p)

alive-none : (o : Option ℕ) → alive o ≡ 0 → o ≡ none
alive-none none h = refl
alive-none (some id) h = absurd (omega arith)

pub alive-le : (o : Option ℕ) → alive o ≤ 1
alive-le none = omega arith
alive-le (some id) = omega arith

-- The timer of a valid manager deletes each object that waits, and deletes no other.
on_timer_del_conn-objs :
    (m : ConMgr)
    → IsValid m
    → (o : ConMgr) × (on_timer_del_conn m ≡ ok o)
      × ((q : ℕ) → alive (o.objs q) + count q m.m_vwdc ≡ alive (m.objs q))
unfolding on_timer_del_conn
on_timer_del_conn-objs m v =
    let (objs, run, left) = delete_all-alive m.m_vwdc m.objs (λ q. omega (arith, v.owned q)) in
    (record m { m_vwdc = []; objs = objs }, rw run refl, left)

-- What is deleted is gone, and nothing else.
delete_all-objs :
    (ps : List ℕ) (objs objs' : ℕ → Option ℕ) (q : ℕ)
    → delete_all ps objs ≡ ok objs'
    → objs' q ≡ (if count q ps == 0 then objs q else none)
unfolding delete_all delete_con
delete_all-objs [] objs objs' q h =
    let same : objs ≡ objs' = cc h in ap (λ (f : ℕ → Option ℕ). f q) (sym same)
delete_all-objs (p ∷ ps) objs objs' q h = elim (Option-cases (objs p)) [
  | inl e ↦ let h' = rw (e, delete_con) at h in cc h'
  | inr (id, e) ↦
      let h' = rw (e, delete_con) at h in
      ground (arith, delete_all-objs ps (set_obj objs p none) objs' q h')
]

-- What waited when the timer ran is gone, and nothing else.
pub on_timer_del_conn-gone :
    (m o : ConMgr) (q : ℕ)
    → on_timer_del_conn m ≡ ok o
    → o.objs q ≡ (if count q m.m_vwdc == 0 then m.objs q else none)
unfolding on_timer_del_conn
on_timer_del_conn-gone m o q h =
    let (objs, e, f) =
      >>=-returns (delete_all m.m_vwdc m.objs) (λ objs. ok (record m { m_vwdc = []; objs = objs }))
        h in
    let same : record m { m_vwdc = []; objs = objs } ≡ o = cc f in
    ap (λ (n : ConMgr). n.objs q) (sym same) ∙ delete_all-objs m.m_vwdc m.objs objs q e

-- What PostDelConn takes off the registry waits, and is still there.
pub posted-waits :
    (id p : ℕ) (m : ConMgr)
    → IsValid m
    → find_conn id m ≡ some p
    → (1 ≤ count p (post_del_conn id m).0.m_vwdc) × ((post_del_conn id m).0.objs ≡ m.objs)
posted-waits id p m v found =
    let itself : (p == p) ≡ true = (==_iff p p).1 refl in
    elim (post_del_conn_cases id m v) [
      | inl (absent, q) ↦ cc
      | inr (p', m', found', run, gone, others, objs, vwdc) ↦
          let same : p' ≡ p = cc in
          rw run (rw (vwdc, same) (ground (arith, count-append p m.m_vwdc (p ∷ []), itself)), objs)
    ]

-- A connection that is posted is deleted. When PostDelConn has taken the identifier of an object off
-- the registry of a valid manager, then whatever calls come next (new objects at free addresses,
-- under free identifiers), the object stays alive until the timer runs, and is gone once it has run.
pub posted_deleted :
    (id p : ℕ) (m : ConMgr) (cs : List Call)
    → IsValid m
    → find_conn id m ≡ some p
    → AllFresh cs (post_del_conn id m).0
    → (o : ConMgr) × (on_timer_del_conn (run_calls cs (post_del_conn id m).0) ≡ ok o)
      × (alive ((run_calls cs (post_del_conn id m).0).objs p) ≡ 1)
      × (o.objs p ≡ none)
posted_deleted id p m cs v found fresh =
    let m1 = (post_del_conn id m).0 in
    let n = run_calls cs m1 in
    let valid : IsValid n = run_calls-IsValid cs m1 (post_del_conn-IsValid id m v) fresh in
    let waits = (posted-waits id p m v found).0 in
    let (o, run, left) = on_timer_del_conn-objs n valid in
    (
      o,
      run,
      omega (arith, waits, valid.owned p, run_calls-waits cs m1 p, alive-le (n.objs p)),
      alive-none (o.objs p)
          (omega (arith, waits, left p, run_calls-waits cs m1 p, alive-le (n.objs p))),
    )
