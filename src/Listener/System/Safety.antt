-- ===== src/Listener/System/Safety.antt =====
-- Every history of a server.
use libevent_cpp.Prelude.{
  ℕ, ◌^◌, ◌≤◌, ◌<◌, ◌≡◌, refl, ap, ◌∙◌, subst, inl, inr, false, Option, none, some, List, length,
  ◌==◌, Bool-cases, ==_iff,
}
use libevent_cpp.Prelude.Outcome.{Outcome, ok}
use libevent_cpp.Env.{Env}
use libevent_cpp.Con.{Con}
use libevent_cpp.Con.Receive.{Holds}
use libevent_cpp.ConMgr.{ConMgr, find_conn, post_del_conn}
use libevent_cpp.ConMgr.Registry.{count}
use libevent_cpp.ConMgr.Owned.{IsValid, post_del_conn-IsValid}
use libevent_cpp.ConMgr.Posted.{posted-waits}
use libevent_cpp.Listener.{Manages}
use libevent_cpp.Listener.System.{Server, enter, leave, handle}
use libevent_cpp.Listener.System.Handled.{Handled, stays, left}
use libevent_cpp.Listener.System.Others.{Conn, absent, is_up, is_posted, post-Conn}

module _ {E : Env} (M : Manages (E.User)) where
  -- The manager owns each object once, and at each address things are as they should be.
  pub record Inv (s : Server E) : Type 0 where
    pub owned : IsValid s.mgr
    pub conns : (p : ℕ) → Conn s.mgr p (s.cons p)

  -- The object at `p` is given back, and the others are as they should be.
  leave-Inv :
      (p : ℕ) (c : Con E) (m : ConMgr) (s : Server E)
      → M.get c.user ≡ m
      → IsValid m
      → Conn m p (some c)
      → ((q : ℕ) → (p == q) ≡ false → Conn m q (s.cons q))
      → Inv (leave M p c s)
  leave-Inv p c m s e v own others = record {
    owned = rw e v;
    conns = λ q. rw e (elim (Bool-cases (p == q)) [
      | inl t ↦
          let same : p ≡ q = (==_iff p q).0 t in rw t (subst (λ r. Conn m r (some c)) same own)
      | inr f ↦ rw f (others q f)
    ]);
  }

  -- A callback was called for the object at `p`, when the manager was `m`.
  pub Handled-Inv :
      (id bev p : ℕ) (m : ConMgr) (s : Server E) (r : Outcome (Con E))
      → IsValid m
      → m.objs p ≡ some id
      → find_conn id m ≡ some p
      → ((q : ℕ) → (p == q) ≡ false → Conn m q (s.cons q))
      → Handled M id bev m r
      → (c : Con E) × (r ≡ ok c) × Inv (leave M p c s)
  Handled-Inv id bev p m s r v a f others (stays c b q e held idle k) =
      (c, e, leave-Inv p c m s k.mgr_same v (is_up id bev c b q refl a f k.buf_e held idle) others)
  Handled-Inv id bev p m s r v a f others (left c e l) =
      let (waits, objs) = posted-waits id p m v f in
      (
        c,
        e,
        leave-Inv p c (post_del_conn id m).0 s l.posted (post_del_conn-IsValid id m v)
            (is_posted id c refl (ap (λ (g : ℕ → Option ℕ). g p) objs ∙ a) waits l.no_buf_e l.no_fd)
            (λ q ne. post-Conn id p q m (s.cons q) v f ne (others q ne)),
      )

  -- What a callback must do for the server to be as it should be afterwards.
  pub record Serves (p : ℕ) (s : Server E) (f : ℕ → Con E → Outcome (Con E)) : Type 0 where
    pub on_open :
        (id bev : ℕ) (c : Con E) (b : E.Bev) (q : List ℕ)
        → M.get c.user ≡ s.mgr
        → find_conn id s.mgr ≡ some p
        → c.m_buf_e ≡ some bev
        → Holds bev c b q
        → length q < 2 ^ 21
        → Handled M id bev s.mgr (f id c)
    pub on_closed :
        (id : ℕ) (c : Con E) → 1 ≤ count p s.mgr.m_vwdc → c.m_buf_e ≡ none → f id c ≡ ok c

  enter-Holds :
      (bev : ℕ) (m : ConMgr) (c : Con E) (b : E.Bev) (q : List ℕ)
      → Holds bev c b q
      → Holds bev (enter M m c) b q
  enter-Holds bev m c b q v = record {
    live = v.live;
    is_open = v.is_open;
    framed = v.framed;
    alive = v.alive;
    bytes = v.bytes;
    small = v.small;
    image = v.image;
  }

  pub handle-Inv :
      (p : ℕ) (s : Server E) (f : ℕ → Con E → Outcome (Con E))
      → Inv s
      → Serves p s f
      → (s' : Server E) × (handle M f p s ≡ ok s') × Inv s'
  unfolding handle
  handle-Inv p s f v h = elim (v.conns p) [
    | absent z a ↦ (s, rw (z, handle) refl, v)
    | is_up id bev c b q z a r u held idle ↦
        let got = M.get-set s.mgr c.user in
        let (c', e, v') =
          Handled-Inv id bev p s.mgr s (f id (enter M s.mgr c)) v.owned a r (λ q ne. v.conns q)
            (h.on_open id bev (enter M s.mgr c) b q got r u (enter-Holds bev s.mgr c b q held)
              idle) in
        (leave M p c' s, rw (z, handle) (rw a (rw e refl)), v')
    | is_posted id c z a w n y ↦
        let got = M.get-set s.mgr c.user in
        let e = h.on_closed id (enter M s.mgr c) w n in
        (
          leave M p (enter M s.mgr c) s,
          rw (z, handle) (rw a (rw e refl)),
          leave-Inv p (enter M s.mgr c) s.mgr s got v.owned
              (is_posted id (enter M s.mgr c) refl a w n y) (λ q ne. v.conns q),
        )
  ]
