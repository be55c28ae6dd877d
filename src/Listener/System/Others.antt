-- ===== src/Listener/System/Others.antt =====
-- The objects of a server that an event is not about: what the manager does to one leaves the others
-- as they are.
use libevent_cpp.Prelude.{
  ℕ, ◌^◌, ◌≤◌, ◌<◌, ◌≡◌, refl, ap, sym, ◌∙◌, inl, inr, true, false, Option, none, some, List, [],
  ◌∷◌, arith, length, ◌==◌, if◌then◌else◌, Bool-cases, ==_iff,
}
use libevent_cpp.Prelude.Int.{is_zero}
use libevent_cpp.Prelude.Outcome.{ok}
use libevent_cpp.Env.{Env}
use libevent_cpp.Con.{Con, update, reset, free, destroy_con}
use libevent_cpp.Con.Receive.{Holds}
use libevent_cpp.ConMgr.{
  lookup, pointers, ConMgr, find_conn, post_del_conn, svr_id, next_seed, set_obj,
  create_connect_for_listener,
}
use libevent_cpp.ConMgr.Registry.{count, count-append, count-erase, lookup-assign}
use libevent_cpp.ConMgr.Owned.{IsValid, post_del_conn_cases}
use libevent_cpp.ConMgr.Posted.{alive-le}
use libevent_cpp.Listener.System.{destroy_all}

module _ {E : Env} where
  -- An address and what the server has there: nothing; a connection that is open and registered
  -- under its identifier, and holds less than a whole message; or one that is closed and waits to
  -- be deleted.
  pub data Conn (m : ConMgr) (p : ℕ) (o : Option (Con E)) : Type 0 where
    absent : o ≡ none → m.objs p ≡ none → Conn m p o
    is_up :
        (id bev : ℕ) (c : Con E) (b : E.Bev) (q : List ℕ)
        → o ≡ some c
        → m.objs p ≡ some id
        → find_conn id m ≡ some p
        → c.m_buf_e ≡ some bev
        → Holds bev c b q
        → length q < 2 ^ 21
        → Conn m p o
    is_posted :
        (id : ℕ) (c : Con E)
        → o ≡ some c
        → m.objs p ≡ some id
        → 1 ≤ count p m.m_vwdc
        → c.m_buf_e ≡ none
        → is_zero c.m_fd ≡ true
        → Conn m p o

registered-count :
    (id p : ℕ) (m : ConMgr) → find_conn id m ≡ some p → 1 ≤ count p (pointers m.m_all_connector)
unfolding find_conn
registered-count id p m h =
    let itself : (p == p) ≡ true = (==_iff p p).1 refl in
    ground (arith, count-erase p id p m.m_all_connector h, itself)

-- What is registered does not wait.
pub registered-waits :
    (id p : ℕ) (m : ConMgr) → IsValid m → find_conn id m ≡ some p → count p m.m_vwdc ≡ 0
registered-waits id p m v h =
    omega (arith, v.owned p, registered-count id p m h, alive-le (m.objs p))

module _ {E : Env} where
  -- Another connection is posted.
  pub post-Conn :
      (id0 p0 p : ℕ) (m : ConMgr) (o : Option (Con E))
      → IsValid m
      → find_conn id0 m ≡ some p0
      → (p0 == p) ≡ false
      → Conn m p o
      → Conn (post_del_conn id0 m).0 p o
  post-Conn id0 p0 p m o v found ne h = elim (post_del_conn_cases id0 m v) [
    | inl (n, e) ↦ rw e h
    | inr (p1, m', f, e, gone, others, objs, waits) ↦
        let same : p1 ≡ p0 = cc in
        rw e (elim h [
          | absent z a ↦ absent z (rw objs a)
          | is_up id bev c b q z a r u held idle ↦
              is_up id bev c b q z (rw objs a) (others id ∙ rw (apart id r) r) u held idle
          | is_posted id c z a w n' s ↦
              is_posted id c z (rw objs a)
                (rw waits (omega (arith, w, count-append p m.m_vwdc (p1 ∷ [])))) n' s
        ])
  ]
    where
      apart : (id : ℕ) → find_conn id m ≡ some p → (id0 == id) ≡ false
      apart id r = elim (Bool-cases (id0 == id)) [
        | inl t ↦
            let same : id0 ≡ id = (==_iff id0 id).0 t in
            let both : some p0 ≡ some p = sym found ∙ ap (λ j. find_conn j m) same ∙ r in
            let eq : p0 ≡ p = cc both in let yes : (p0 == p) ≡ true = (==_iff p0 p).1 eq in cc
        | inr f ↦ f
      ]

  -- Another connection is made.
  pub create-Conn :
      (p0 sec p : ℕ) (m : ConMgr) (o : Option (Con E))
      → find_conn (svr_id sec (next_seed m.seed)) m ≡ none
      → (p0 == p) ≡ false
      → Conn m p o
      → Conn (create_connect_for_listener (some p0) sec m).0 p o
  unfolding create_connect_for_listener find_conn
  create-Conn p0 sec p m o fresh ne h =
      let id0 = svr_id sec (next_seed m.seed) in
      let objs : set_obj m.objs p0 (some id0) p ≡ m.objs p = rw ne refl in
      elim h [
        | absent z a ↦ absent z (objs ∙ a)
        | is_up id bev c b q z a r u held idle ↦
            let apart : (id0 == id) ≡ false = elim (Bool-cases (id0 == id)) [
              | inl t ↦
                  let same : id0 ≡ id = (==_iff id0 id).0 t in
                  cc (ap (λ j. lookup j m.m_all_connector) same)
              | inr f ↦ f
            ] in
            is_up id bev c b q z (objs ∙ a)
              (lookup-assign id0 id p0 m.m_all_connector ∙ rw (apart, r) refl) u held idle
        | is_posted id c z a w n s ↦ is_posted id c z (objs ∙ a) w n s
      ]

module _ {E : Env} where
  -- Objects that are there, and closed, are destroyed with no fault.
  pub destroy_all-cons :
      (ps : List ℕ) (cons : ℕ → Option (Con E))
      → ((q : ℕ) → count q ps ≤ 1)
      → ((q : ℕ) → 1 ≤ count q ps → (c : Con E) × (cons q ≡ some c) × (c.m_buf_e ≡ none))
      → (cons' : ℕ → Option (Con E)) × (destroy_all ps cons ≡ ok cons')
        × ((q : ℕ) → cons' q ≡ (if count q ps == 0 then cons q else none))
  unfolding destroy_all destroy_con free reset
  destroy_all-cons [] cons once there = (cons, refl, λ q. refl)
  destroy_all-cons (p ∷ ps) cons once there =
      let itself : (p == p) ≡ true = (==_iff p p).1 refl in
      let (c, e, n) = there p (ground (arith, itself)) in
      let rest : (q : ℕ)
          → 1 ≤ count q ps
          → (d : Con E) × (update cons p none q ≡ some d) × (d.m_buf_e ≡ none) =
        λ q h.
          let (d, f, g) = there q (omega (arith, h)) in
          let ne : (p == q) ≡ false = ground (arith, once q, h) in (d, rw ne f, g) in
      let (cons', run, left) =
        destroy_all-cons ps (update cons p none) (λ q. omega (arith, once q)) rest in
      (cons', rw (e, destroy_all) (rw (n, destroy_con, free) run), λ q. ground (arith, left q))
