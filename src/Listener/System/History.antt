-- ===== src/Listener/System/History.antt =====
-- Every history of a server.
use libevent_cpp.Prelude.{
  ℕ, ◌^◌, ◌<◌, ◌≡◌, refl, ap, ◌∙◌, subst, ◌⊎◌, inl, inr, true, false, Option, none, some, List, [],
  arith, length, ◌==◌, ==_iff, Option-cases,
}
use libevent_cpp.Prelude.Int.{ℤ, is_zero}
use libevent_cpp.Prelude.Outcome.{ok, ok_same}
use libevent_cpp.Bytes.{AllBytes}
use libevent_cpp.Env.{Env}
use libevent_cpp.Con.{Con, Handlers, SockAddr, new_con}
use libevent_cpp.Con.Valid.{attached}
use libevent_cpp.ConMgr.{
  new_con_mgr, find_conn, post_del_conn, svr_id, next_seed, create_connect_for_listener,
}
use libevent_cpp.ConMgr.Registry.{lookup-assign}
use libevent_cpp.ConMgr.Owned.{IsValid, new_con_mgr-IsValid, create-IsValid}
use libevent_cpp.Listener.{Manages, Listener, svr_handlers, listener_cb}
use libevent_cpp.Listener.Accept.{accept_init_new, svr_disconnect_up}
use libevent_cpp.Listener.System.{
  Server, Event, accepted, arrived, reported, asked, ticked, leave, on_arrived, on_reported,
  on_asked, step, run,
}
use libevent_cpp.Listener.System.Handled.{
  IsClass, Handled, left, Obeys-Handled, arrive-Handled, reported-Handled,
}
use libevent_cpp.Listener.System.Others.{absent, registered-waits, create-Conn}
use libevent_cpp.Listener.System.Ticked.{Cleared-open, ticked-Inv}
use libevent_cpp.Listener.System.Safety.{Inv, Serves, Handled-Inv, handle-Inv}

module _ {E : Env} where
  abbrev pub new_server : Listener → ℕ → Server E
  new_server l seed = record { listener = l; mgr = new_con_mgr seed; cons = λ p. none }

module _ {E : Env} (M : Manages (E.User)) (app : Handlers E) (cls : IsClass M app) where
  on_arrived_closed :
      (xs : List ℕ) (id : ℕ) (c : Con E) → c.m_buf_e ≡ none → on_arrived M app xs id c ≡ ok c
  unfolding on_arrived
  on_arrived_closed xs id c n = rw n

  on_reported_closed :
      (events id : ℕ) (c : Con E) → c.m_buf_e ≡ none → on_reported M app events id c ≡ ok c
  unfolding on_reported
  on_reported_closed events id c n = rw n

  on_arrived-Serves :
      (xs : List ℕ) (p : ℕ) (s : Server E)
      → AllBytes xs
      → length xs < 2 ^ 30
      → Serves M p s (on_arrived M app xs)
  unfolding on_arrived
  on_arrived-Serves xs p s bytes small = record {
    on_open = λ id bev c b q got f u held idle.
        rw (u, on_arrived)
          (arrive-Handled M app id bev cls s.mgr xs q c b held idle
            (record { buf_e = u; mgr_same = got }) bytes small);
    on_closed = λ id c w n. on_arrived_closed xs id c n;
  }

  on_reported-Serves : (events p : ℕ) (s : Server E) → Serves M p s (on_reported M app events)
  unfolding on_reported
  on_reported-Serves events p s = record {
    on_open = λ id bev c b q got f u held idle.
        rw (u, on_reported)
          (reported-Handled M app id bev cls s.mgr events q c b held idle
            (record { buf_e = u; mgr_same = got }));
    on_closed = λ id c w n. on_reported_closed events id c n;
  }

  on_asked-Serves :
      (j p : ℕ) (s : Server E)
      → IsValid s.mgr
      → find_conn j s.mgr ≡ some p
      → Serves M p s (on_asked M app)
  unfolding on_asked
  on_asked-Serves j p s v found = record {
    on_open = λ id bev c b q got f u held idle.
        let (d, e, shut, gone, vwdc, freed, posted, bare, there) =
          svr_disconnect_up M id p app c (attached bev b u held.live held.is_open held.alive tt)
            held.is_open (rw got v) (rw got f) in
        left d (rw e refl) (record {
          no_buf_e = bare;
          no_fd = shut;
          posted = posted ∙ ap (λ n. (post_del_conn id n).0) got;
        });
    on_closed = λ id c w n. absurd (omega (arith, w, registered-waits j p s.mgr v found));
  }

  accepted-Inv :
      (p sec : ℕ) (fd : ℤ) (sa : Option SockAddr) (bev : ℕ) (b : E.Bev) (u : E.User) (s : Server E)
      → Inv M s
      → s.mgr.objs p ≡ none
      → find_conn (svr_id sec (next_seed s.mgr.seed)) s.mgr ≡ none
      → is_zero fd ≡ false
      → E.input b ≡ []
      → (s' : Server E) × (step M app (accepted p sec fd sa bev b u) s ≡ ok s') × Inv M s'
  unfolding step listener_cb new_con svr_handlers find_conn create_connect_for_listener
  accepted-Inv p sec fd sa bev b u s v free fresh nonzero bare =
      let id = svr_id sec (next_seed s.mgr.seed) in
      let user = M.set s.mgr u in
      let m1 = (create_connect_for_listener (some p) sec s.mgr).0 in
      let m2 = (create_connect_for_listener (some p) sec (M.get user)).0 in
      let same : m2 ≡ m1 =
        ap (λ n. (create_connect_for_listener (some p) sec n).0) (M.get-set s.mgr u) in
      let (d, runs, valid, conn, is_fd, addr, is_user, buf, live, len, raw, there) =
        accept_init_new (svr_handlers M id app) fd sa s.listener.m_addr bev b
          (new_con E (λ q. none) (M.set m2 user)) refl refl nonzero refl in
      let got : M.get d.user ≡ m1 = ap M.get is_user ∙ M.get-set m2 user ∙ same in
      let is_open : is_zero d.m_fd ≡ false = rw is_fd nonzero in
      let handled : Handled M id bev m1 (app.on_connected d) =
        Obeys-Handled M app id bev cls m1 [] d b (app.on_connected d)
          (record {
            live = live;
            is_open = is_open;
            framed = raw;
            alive = there;
            bytes = tt;
            small = omega arith;
            image = inl (len, bare);
          })
          (omega arith) (record { buf_e = buf; mgr_same = got })
          (cls.on_connected_obeys id bev d b buf live is_open) in
      let itself : (p == p) ≡ true = (==_iff p p).1 refl in
      let same_id : (id == id) ≡ true = (==_iff id id).1 refl in
      let (c, e, inv) =
        Handled-Inv M id bev p m1 s (app.on_connected d)
          (create-IsValid p sec s.mgr v.owned free fresh) (rw itself refl)
          (lookup-assign id id p s.mgr.m_all_connector ∙ rw same_id refl)
          (λ q ne. create-Conn p sec q s.mgr (s.cons q) fresh ne (v.conns q)) handled in
      (leave M p c s, rw runs (rw e refl), inv)

  -- What libevent and the system keep to: a new object is at a free address, under a new identifier;
  -- an accepted socket is not descriptor 0, and its bufferevent holds no byte yet; a piece that
  -- arrives is of less than 2^30 bytes.
  abbrev pub Legal : Event E → Server E → Type 0
  Legal (accepted p sec fd sa bev b u) s =
      (s.mgr.objs p ≡ none)
      × (find_conn (svr_id sec (next_seed s.mgr.seed)) s.mgr ≡ none)
      × (is_zero fd ≡ false)
      × (E.input b ≡ [])
  Legal (arrived p xs) s = AllBytes xs × (length xs < 2 ^ 30)
  Legal (reported p events) s = Unit {0}
  Legal (asked id) s = Unit {0}
  Legal ticked s = Unit {0}

  step-Inv :
      (e : Event E) (s : Server E)
      → Inv M s
      → Legal e s
      → (s' : Server E) × (step M app e s ≡ ok s') × Inv M s'
  unfolding step
  step-Inv (accepted p sec fd sa bev b u) s v h =
      accepted-Inv p sec fd sa bev b u s v h.0 h.1 h.2 h.3
  step-Inv (arrived p xs) s v h =
      handle-Inv M p s (on_arrived M app xs) v (on_arrived-Serves xs p s h.0 h.1)
  step-Inv (reported p events) s v h =
      handle-Inv M p s (on_reported M app events) v (on_reported-Serves events p s)
  step-Inv (asked id) s v h = elim (Option-cases (find_conn id s.mgr)) [
    | inl e ↦ (s, rw (e, step) refl, v)
    | inr (p, e) ↦
        let (s', run, v') =
          handle-Inv M p s (on_asked M app) v (on_asked-Serves id p s v.owned e) in
        (s', rw (e, step) run, v')
  ]
  step-Inv ticked s v h = let (s', e, v', each) = ticked-Inv M app s v in (s', e, v')

  -- What can become of a server that has no connection yet.
  pub data History : Server E → Type 0 where
    begins : (l : Listener) (seed : ℕ) → History (new_server l seed)
    goes_on :
        (e : Event E) {s : Server E} (s' : Server E)
        → History s
        → Legal e s
        → step M app e s ≡ ok s'
        → History s'

  History-Inv : {s : Server E} → History s → Inv M s
  unfolding new_con_mgr
  History-Inv (begins l seed) = record {
    owned = new_con_mgr-IsValid seed;
    conns = λ p. absent refl refl;
  }
  History-Inv (goes_on e {s} s' h legal run) =
      let (t, run', v) = step-Inv e s (History-Inv h) legal in subst (Inv M) (ok_same run' run) v

  -- A server whose callbacks each leave their connection open, and the manager alone, or drop the
  -- connection: after any history of accepted sockets (a new object at a free address and under a
  -- new identifier, a descriptor that is not 0, a bufferevent with no byte), pieces of data (of less
  -- than 2^30 bytes), reported events, connections dropped by the user's code and runs of the timer,
  -- it takes the next such event without a fault. Every object is then owned once, by the registry
  -- or by the list of those to be deleted, and is a connection that is open and registered, or one
  -- that is closed and waits.
  pub History-safe :
      (e : Event E) (s : Server E)
      → History s
      → Legal e s
      → (s' : Server E) × (step M app e s ≡ ok s') × Inv M s'
  History-safe e s h legal = step-Inv e s (History-Inv h) legal

  -- After any such history, one run of the timer deletes every connection that was closed: each
  -- object that is left is open, and registered under its identifier.
  pub ticked_open :
      (s : Server E) (p : ℕ)
      → History s
      → (s' : Server E) × (step M app ticked s ≡ ok s')
        × ((s'.cons p ≡ none)
            ⊎ ((c : Con E) × (id : ℕ) × (s'.cons p ≡ some c)
                × (is_zero c.m_fd ≡ false)
                × (s'.mgr.objs p ≡ some id)
                × (find_conn id s'.mgr ≡ some p)))
  ticked_open s p h =
      let (s', e, v, each) = ticked-Inv M app s (History-Inv h) in
      (
        s',
        e,
        elim (Option-cases (s'.cons p)) [
          | inl z ↦ inl z
          | inr (c, z) ↦
              let (is_open, id, a, f) = Cleared-open M s'.mgr p (s'.cons p) c (each p) z in
              inr (c, id, z, is_open, a, f)
        ],
      )
