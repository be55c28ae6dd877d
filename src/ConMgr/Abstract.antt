-- ===== src/ConMgr/Abstract.antt =====
-- What BaseConMgr of src/listener.cc promises, with no order: a map from identifiers to objects, how
-- often each object waits to be deleted, and which objects there are.
use libevent_cpp.Prelude.{
  ℕ, ◌+◌, ◌≡◌, refl, ap, sym, ◌∙◌, inl, inr, Bool, Option, none, some, List, [], ◌∷◌, arith, ◌==◌,
  if◌then◌else◌, Option-cases,
}
use libevent_cpp.Prelude.Outcome.{Outcome, ok, ◌>>=◌, >>=-returns}
use libevent_cpp.ConMgr.{
  ConMgr, lookup, find_conn, post_del_conn, svr_id, next_seed, set_obj, create_connect_for_listener,
  delete_all, on_timer_del_conn,
}
use libevent_cpp.ConMgr.Registry.{count, count-append, lookup-assign}
use libevent_cpp.ConMgr.Owned.{
  IsValid, post_del_conn-IsValid, post_del_conn_cases, create-IsValid, on_timer_del_conn-IsValid,
}
use libevent_cpp.ConMgr.Posted.{on_timer_del_conn-gone}

pub record Registrar : Type 0 where
  pub registered : ℕ → Option ℕ
  pub waiting : ℕ → ℕ
  pub there : ℕ → Option ℕ
  pub last_seed : ℕ

-- What an operation is: PostDelConn of an identifier, CreateConnectForListener of an object at an
-- address and a time, or the timer.
pub data Op : Type 0 where
  op_post : ℕ → Op
  op_create : ℕ → ℕ → Op
  op_timer : Op

-- The object at `p` is taken off the registry, where it is under `id`.
abbrev pub removed : ℕ → ℕ → Registrar → Registrar
removed id p a = record a {
  registered = λ j. if id == j then none else a.registered j;
  waiting = λ q. a.waiting q + (if p == q then 1 else 0);
}

abbrev pub specified : Op → Registrar → Registrar
specified (op_post id) a = elim (a.registered id) [ none ↦ a | some p ↦ removed id p a ]
specified (op_create p sec) a =
    let id = svr_id sec (next_seed a.last_seed) in
    record a {
      registered = λ j. if id == j then some p else a.registered j;
      there = set_obj a.there p (some id);
      last_seed = next_seed a.last_seed;
    }
specified op_timer a = record a {
  waiting = λ q. 0;
  there = λ q. if a.waiting q == 0 then a.there q else none;
}

abbrev pub specified_all : List Op → Registrar → Registrar
specified_all [] a = a
specified_all (o ∷ os) a = specified_all os (specified o a)

-- A new object is at a free address, and its identifier is not registered.
abbrev pub Allowed : Op → Registrar → Type 0
Allowed (op_post id) a = Unit {0}
Allowed (op_create p sec) a =
    (a.there p ≡ none) × (a.registered (svr_id sec (next_seed a.last_seed)) ≡ none)
Allowed op_timer a = Unit {0}

abbrev pub AllAllowed : List Op → Registrar → Type 0
AllAllowed [] a = Unit {0}
AllAllowed (o ∷ os) a = Allowed o a × AllAllowed os (specified o a)

-- The code's operations.
abbrev pub operate : Op → ConMgr → Outcome ConMgr
operate (op_post id) m = ok (post_del_conn id m).0
operate (op_create p sec) m = ok (create_connect_for_listener (some p) sec m).0
operate op_timer m = on_timer_del_conn m

abbrev pub operate_all : List Op → ConMgr → Outcome ConMgr
operate_all [] m = ok m
operate_all (o ∷ os) m = operate o m >>= λ m'. operate_all os m'

-- What the manager's state means.
abbrev pub view : ConMgr → Registrar
view m = record {
  registered = λ j. find_conn j m;
  waiting = λ q. count q m.m_vwdc;
  there = m.objs;
  last_seed = m.seed;
}

Registrar-ext :
    (a b : Registrar)
    → ((j : ℕ) → a.registered j ≡ b.registered j)
    → ((q : ℕ) → a.waiting q ≡ b.waiting q)
    → ((q : ℕ) → a.there q ≡ b.there q)
    → a.last_seed ≡ b.last_seed
    → a ≡ b
Registrar-ext a b r w t s = λ i. record {
  registered = λ j. r j i;
  waiting = λ q. w q i;
  there = λ q. t q i;
  last_seed = s i;
}

specified-none : (id : ℕ) (a : Registrar) → a.registered id ≡ none → specified (op_post id) a ≡ a
specified-none id a n = rw (n, specified)

specified-some :
    (id p : ℕ) (a : Registrar)
    → a.registered id ≡ some p
    → specified (op_post id) a ≡ removed id p a
specified-some id p a n = rw (n, specified)

post-seed : (id : ℕ) (m : ConMgr) → (post_del_conn id m).0.seed ≡ m.seed
unfolding post_del_conn
post-seed id m = elim (Option-cases (lookup id m.m_all_connector)) [
  | inl e ↦ ground (arith, e)
  | inr (p, e) ↦ ground (arith, e)
]

timer-seed : (m m' : ConMgr) → on_timer_del_conn m ≡ ok m' → m'.seed ≡ m.seed
unfolding on_timer_del_conn
timer-seed m m' h =
    let (objs, e, f) =
      >>=-returns (delete_all m.m_vwdc m.objs) (λ objs. ok (record m { m_vwdc = []; objs = objs }))
        h in
    let same : record m { m_vwdc = []; objs = objs } ≡ m' = cc f in
    ap (λ (n : ConMgr). n.seed) (sym same)

post-view :
    (id : ℕ) (m : ConMgr)
    → IsValid m
    → view (post_del_conn id m).0 ≡ specified (op_post id) (view m)
post-view id m v = elim (post_del_conn_cases id m v) [
  | inl (n, e) ↦ ap (λ (r : ConMgr × Bool). view r.0) e ∙ sym (specified-none id (view m) n)
  | inr (p, m', f, e, gone, others, objs, waits) ↦
      let seed : m'.seed ≡ m.seed = ap (λ (r : ConMgr × Bool). r.0.seed) (sym e) ∙ post-seed id m in
      ap (λ (r : ConMgr × Bool). view r.0) e
      ∙ (Registrar-ext (view m') (removed id p (view m)) others
          (λ q. ap (count q) waits ∙ (omega (arith, count-append q m.m_vwdc (p ∷ []))))
          (λ q. ap (λ (g : ℕ → Option ℕ). g q) objs) seed)
      ∙ sym (specified-some id p (view m) f)
]

create-view :
    (p sec : ℕ) (m : ConMgr)
    → view (create_connect_for_listener (some p) sec m).0 ≡ specified (op_create p sec) (view m)
unfolding create_connect_for_listener find_conn
create-view p sec m =
    let id = svr_id sec (next_seed m.seed) in
    Registrar-ext _ _ (λ j. lookup-assign id j p m.m_all_connector) (λ q. refl) (λ q. refl) refl

timer-view :
    (m m' : ConMgr)
    → on_timer_del_conn m ≡ ok m'
    → m'.m_all_connector ≡ m.m_all_connector
    → m'.m_vwdc ≡ []
    → view m' ≡ specified op_timer (view m)
unfolding find_conn
timer-view m m' e same empty =
    Registrar-ext _ _ (λ j. ap (lookup j) same) (λ q. ap (count q) empty)
      (λ q. on_timer_del_conn-gone m m' q e) (timer-seed m m' e)

pub operate-view :
    (o : Op) (m : ConMgr)
    → IsValid m
    → Allowed o (view m)
    → (m' : ConMgr) × (operate o m ≡ ok m') × IsValid m' × (view m' ≡ specified o (view m))
unfolding find_conn
operate-view (op_post id) m v h =
    ((post_del_conn id m).0, refl, post_del_conn-IsValid id m v, post-view id m v)
operate-view (op_create p sec) m v h = (
  (create_connect_for_listener (some p) sec m).0,
  refl,
  create-IsValid p sec m v h.0 h.1,
  create-view p sec m,
)
operate-view op_timer m v h =
    let (m', e, v', same, empty) = on_timer_del_conn-IsValid m v in
    (m', e, v', timer-view m m' e same empty)

-- The manager keeps its promise: from a valid manager, any sequence of PostDelConn,
-- CreateConnectForListener (of objects at free addresses, under identifiers that are not registered)
-- and runs of the timer ends with no fault, and what is registered, what waits and what is there is
-- then what the specification says, in which neither the order of the map nor that of the list
-- exists.
pub operate_all-specified :
    (os : List Op) (m : ConMgr)
    → IsValid m
    → AllAllowed os (view m)
    → (m' : ConMgr) × (operate_all os m ≡ ok m')
      × IsValid m'
      × (view m' ≡ specified_all os (view m))
operate_all-specified [] m v h = (m, refl, v, refl)
operate_all-specified (o ∷ os) m v h =
    let (m1, e1, v1, s1) = operate-view o m v h.0 in
    let (m2, e2, v2, s2) = operate_all-specified os m1 v1 (rw s1 h.1) in
    (m2, rw e1 e2, v2, s2 ∙ ap (specified_all os) s1)
