-- ===== src/Listener/System/Ticked.antt =====
-- The timer of a server.
use libevent_cpp.Prelude.{
  ℕ, ◌^◌, ◌≤◌, ◌<◌, ◌≡◌, refl, ap, sym, ◌∙◌, subst, inl, inr, false, Option, none, some, List,
  arith, length, ◌==◌, if◌then◌else◌, Bool-cases,
}
use libevent_cpp.Prelude.Int.{is_zero}
use libevent_cpp.Prelude.Outcome.{ok}
use libevent_cpp.Env.{Env}
use libevent_cpp.Con.{Con, Handlers}
use libevent_cpp.Con.Receive.{Holds}
use libevent_cpp.ConMgr.{ConMgr, find_conn, lookup}
use libevent_cpp.ConMgr.Registry.{count}
use libevent_cpp.ConMgr.Owned.{on_timer_del_conn-IsValid}
use libevent_cpp.ConMgr.Posted.{on_timer_del_conn-gone, alive-le}
use libevent_cpp.Listener.{Manages}
use libevent_cpp.Listener.System.{Server, ticked, step}
use libevent_cpp.Listener.System.Others.{
  Conn, absent, is_up, is_posted, registered-waits, destroy_all-cons,
}
use libevent_cpp.Listener.System.Safety.{Inv}

module _ {E : Env} (M : Manages (E.User)) where
  -- What waits is there, and closed.
  waiting :
      (s : Server E)
      → Inv M s
      → (q : ℕ) → 1 ≤ count q s.mgr.m_vwdc
      → (c : Con E) × (s.cons q ≡ some c) × (c.m_buf_e ≡ none)
  waiting s v q h = elim (v.conns q) [
    | absent z a ↦ absurd (ground (arith, v.owned.owned q, h, a))
    | is_up id bev c b r z a f u held idle ↦
        absurd (omega (arith, h, registered-waits id q s.mgr v.owned f))
    | is_posted id c z a w n y ↦ (c, z, n)
  ]

  -- After the timer, at each address there is nothing, or a connection that is open.
  pub data Cleared (m : ConMgr) (p : ℕ) (o : Option (Con E)) : Type 0 where
    gone : o ≡ none → m.objs p ≡ none → Cleared m p o
    still_up :
        (id bev : ℕ) (c : Con E) (b : E.Bev) (q : List ℕ)
        → o ≡ some c
        → m.objs p ≡ some id
        → find_conn id m ≡ some p
        → c.m_buf_e ≡ some bev
        → Holds bev c b q
        → length q < 2 ^ 21
        → Cleared m p o

  Cleared-Conn : (m : ConMgr) (p : ℕ) (o : Option (Con E)) → Cleared m p o → Conn m p o
  Cleared-Conn m p o (gone z a) = absent z a
  Cleared-Conn m p o (still_up id bev c b q z a f u held idle) =
      is_up id bev c b q z a f u held idle

  -- What is there is open, and registered under its identifier.
  pub Cleared-open :
      (m : ConMgr) (p : ℕ) (o : Option (Con E)) (c : Con E)
      → Cleared m p o
      → o ≡ some c
      → (is_zero c.m_fd ≡ false) × (id : ℕ) × (m.objs p ≡ some id) × (find_conn id m ≡ some p)
  Cleared-open m p o c (gone z a) e = cc
  Cleared-open m p o c (still_up id bev c' b q z a f u held idle) e =
      let both : some c' ≡ some c = sym z ∙ e in
      let same : c' ≡ c = cc both in
      (subst (λ (d : Con E). is_zero d.m_fd ≡ false) same held.is_open, id, a, f)

  ticked-Cleared :
      (s : Server E) (m : ConMgr) (cons : ℕ → Option (Con E)) (p : ℕ)
      → Inv M s
      → m.m_all_connector ≡ s.mgr.m_all_connector
      → m.objs p ≡ (if count p s.mgr.m_vwdc == 0 then s.mgr.objs p else none)
      → cons p ≡ (if count p s.mgr.m_vwdc == 0 then s.cons p else none)
      → Cleared m p (cons p)
  unfolding find_conn
  ticked-Cleared s m cons p v same objs remains = elim (v.conns p) [
    | absent z a ↦ elim (Bool-cases (count p s.mgr.m_vwdc == 0)) [
      | inl t ↦ gone (remains ∙ rw (t, z) refl) (objs ∙ rw (t, a) refl)
      | inr f ↦ gone (remains ∙ rw f refl) (objs ∙ rw f refl)
    ]
    | is_up id bev c b q z a f u held idle ↦
        let none_waits = registered-waits id p s.mgr v.owned f in
        still_up id bev c b q (remains ∙ rw (none_waits, z) refl) (objs ∙ rw (none_waits, a) refl)
          (ap (lookup id) same ∙ f) u held idle
    | is_posted id c z a w n y ↦
        let some_wait : (count p s.mgr.m_vwdc == 0) ≡ false = ground (arith, w) in
        gone (remains ∙ rw some_wait refl) (objs ∙ rw some_wait refl)
  ]

  -- The timer runs: it deletes what waits, and leaves only connections that are open.
  pub ticked-Inv :
      (app : Handlers E) (s : Server E)
      → Inv M s
      → (s' : Server E) × (step M app ticked s ≡ ok s')
        × Inv M s'
        × ((p : ℕ) → Cleared s'.mgr p (s'.cons p))
  unfolding step
  ticked-Inv app s v =
      let (m, e, vm, same, empty) = on_timer_del_conn-IsValid s.mgr v.owned in
      let once : (q : ℕ) → count q s.mgr.m_vwdc ≤ 1 =
        λ q. omega (arith, v.owned.owned q, alive-le (s.mgr.objs q)) in
      let (cons, f, cleared) = destroy_all-cons s.mgr.m_vwdc s.cons once (waiting s v) in
      let each : (p : ℕ) → Cleared m p (cons p) =
        λ p. ticked-Cleared s m cons p v same (on_timer_del_conn-gone s.mgr m p e) (cleared p) in
      (
        record s { mgr = m; cons = cons },
        rw e (rw f refl),
        record { owned = vm; conns = λ p. Cleared-Conn m p (cons p) (each p) },
        each,
      )
