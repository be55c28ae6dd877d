-- ===== src/Trials/Recon/Turns.antt =====
-- test/client_prj/main.cc, ClientReconByDelCtr: the turns of its timer.
use libevent_cpp.Prelude.{
  ◌+◌, ◌%◌, ◌^◌, ℕ, ◌≡◌, refl, subst, ◌⊎◌, inl, inr, Bool, true, false, not, none, some, List, ◌∷◌,
}
use libevent_cpp.Prelude.Outcome.{Safe, safe, Safe->>=}
use libevent_cpp.Env.{Env}
use libevent_cpp.Con.{MsgPack, Con, destroy_con, free, conn_event_callback}
use libevent_cpp.Con.Client.{Attempt}
use libevent_cpp.Con.Send.{send_data_pack}
use libevent_cpp.Con.Valid.{Anything, At}
use libevent_cpp.Con.Alone.{alone, IsTidy, free_empties}
use libevent_cpp.Con.Alone.Calls.{send_data_pack-Tidy, conn_event_callback-Tidy}
use libevent_cpp.Con.Methods.{is_connected_event}
use libevent_cpp.Timer.{Timer, Event, Timeval, wait_time_out}
use libevent_cpp.Timer.Steps.{expire_loop}
use libevent_cpp.Samples.Server.{plain}
use libevent_cpp.Trials.Flood.{Member}
use libevent_cpp.Trials.Mass.Invariant.{user-IsValid}
use libevent_cpp.Trials.Recon.{
  client_recv, recon_on_recv, Counted, ClientReconByDelCtr, recon, recon_on_connected,
  create_client, del_client, ctr_on_timer, ctr_time_comes, client_event,
}
use libevent_cpp.Trials.Recon.Created.{Succeeds, connect_init-new}

-- A looping timer that is pending.
pub record IsLooping (t : Timer) : Type 0 where
  pub e : Event
  pub tv : Timeval
  pub cb : ℕ
  pub state : t.m_state ≡ wait_time_out
  pub has : t.m_event ≡ some e
  pub pends : e.pending ≡ some tv
  pub repeats : e.persist ≡ t.m_is_loop
  pub calls : t.m_cb ≡ some cb
  pub loops : t.m_is_loop ≡ true

still : (t : Timer) (xs : List ℕ) → IsLooping t → IsLooping (record t { fired = xs })
still t xs l = record {
  e = l.e;
  tv = l.tv;
  cb = l.cb;
  state = l.state;
  has = l.has;
  pends = l.pends;
  repeats = l.repeats;
  calls = l.calls;
  loops = l.loops;
}

with_user : {E : Env} (c : Con E) (u : E.User) → IsTidy c → IsTidy (record c { user = u })
with_user c u v = elim v.only [
  | alone f ↦ record { valid = user-IsValid Anything Anything c u v.valid tt; only = alone f }
]

module _ {E : Env} where
  abbrev pub has_client : ClientReconByDelCtr E → Bool
  has_client k = elim k.m_client [ none ↦ false | some c ↦ true ]

  -- libevent reports BEV_EVENT_CONNECTED only for a bufferevent that is there.
  abbrev pub Called : ℕ → ClientReconByDelCtr E → Type 0
  Called events k =
      (is_connected_event events ≡ false)
      ⊎ ((c : Con E) × (bev : ℕ) × (k.m_client ≡ some c) × At Anything bev c)

  called :
      (events : ℕ) (k : ClientReconByDelCtr E) (c : Con E)
      → k.m_client ≡ some c
      → Called events k
      → (is_connected_event events ≡ false) ⊎ ((bev : ℕ) × At Anything bev c)
  called events k c h (inl n) = inl n
  called events k c h (inr (d, bev, g, at)) =
      let same : d ≡ c = cc in inr (bev, subst (At Anything bev) same at)

module _ {E : Env} (G : Member (E.User) Counted) where
  -- OnConnected sends, or drops the connection.
  recon_on_connected-Tidy : (c : Con E) → IsTidy c → Safe IsTidy (recon_on_connected G c)
  unfolding recon_on_connected
  recon_on_connected-Tidy c v =
      Safe->>= (send_data_pack plain _ _) _
        (send_data_pack-Tidy plain (λ d. refl) _ _ (with_user c _ v)) (λ r w. safe r.0 refl w)

  -- What is true between two turns: without a client there is no bufferevent.
  pub record IsKept (k : ClientReconByDelCtr E) : Type 0 where
    pub timer : IsLooping k.m_timer
    pub client :
        ((k.m_client ≡ none) × ((q : ℕ) → k.bevs q ≡ none))
        ⊎ ((c : Con E) × (k.m_client ≡ some c) × IsTidy c)

  -- A turn gives a state that is kept, with a client or without one.
  abbrev pub Leads : Bool → ClientReconByDelCtr E → Type 0
  Leads full d = IsKept d × (has_client d ≡ full)

  create_client-Leads :
      (t : Attempt E) (k : ClientReconByDelCtr E)
      → Succeeds t
      → IsLooping k.m_timer
      → k.m_client ≡ none
      → ((q : ℕ) → k.bevs q ≡ none)
      → Safe (Leads true) (create_client G t k)
  unfolding create_client
  create_client-Leads t k s l n empty =
      rw (n, create_client)
        (Safe->>= _ _
          (connect_init-new G t k.bevs (G.set (record (G.get k.last) { m_cnt = 0 }) k.last) s empty)
          (λ r w. rw (w.1) (
            safe (record k { m_client = some r.0 }) refl
              (record { timer = l; client = inr (r.0, refl, w.0) }, refl))))

  del_client-Leads :
      (k : ClientReconByDelCtr E) (c : Con E)
      → IsLooping k.m_timer
      → k.m_client ≡ some c
      → IsTidy c
      → Safe (Leads false) (del_client G k)
  unfolding del_client destroy_con
  del_client-Leads k c l h v =
      rw (h, del_client)
        (Safe->>= (free c) _ (free_empties c v) (λ d w.
          safe (record k { m_client = none; bevs = d.bevs; last = d.user }) refl
            (record { timer = l; client = inl (refl, w.2) }, refl)))

  ctr_on_timer-Leads :
      (t : Attempt E) (k : ClientReconByDelCtr E)
      → Succeeds t
      → IsKept k
      → Safe (Leads (not (has_client k))) (ctr_on_timer G t k)
  unfolding ctr_on_timer
  ctr_on_timer-Leads t k s v = elim v.client [
    | inl (n, none_live) ↦ rw (n, ctr_on_timer) (create_client-Leads t k s v.timer n none_live)
    | inr (c, h, w) ↦ rw (h, ctr_on_timer) (del_client-Leads k c v.timer h w)
  ]

  pub ctr_time_comes-Leads :
      (t : Attempt E) (k : ClientReconByDelCtr E)
      → Succeeds t
      → IsKept k
      → Safe (Leads (not (has_client k))) (ctr_time_comes G t k)
  unfolding ctr_time_comes
  ctr_time_comes-Leads t k s v =
      let l = v.timer in
      let u = record k.m_timer { fired = l.cb ∷ k.m_timer.fired } in
      rw
        (
          l.has,
          ctr_time_comes,
          l.pends,
          expire_loop k.m_timer l.e l.tv l.cb l.state l.has l.pends l.repeats l.calls l.loops,
        )
        (ctr_on_timer-Leads t (record k { m_timer = u }) s
          (record { timer = still k.m_timer (l.cb ∷ k.m_timer.fired) l; client = v.client }))

  recon_event :
      (events : ℕ) (c : Con E)
      → IsTidy c
      → (is_connected_event events ≡ false) ⊎ ((bev : ℕ) × At Anything bev c)
      → Safe IsTidy (conn_event_callback (recon G) events c)
  unfolding recon
  recon_event events c v h =
      conn_event_callback-Tidy (recon G) (λ d. refl) events c (λ d. refl) (recon_on_connected-Tidy)
        v h

  pub client_recv-Leads :
      (msg : MsgPack) (k : ClientReconByDelCtr E)
      → msg.len ≡ 4
      → IsKept k
      → Safe (Leads (has_client k)) (client_recv G msg k)
  unfolding client_recv recon_on_recv
  client_recv-Leads msg k four v = elim v.client [
    | inl (n, none_live) ↦ rw (n, client_recv) (safe k refl (v, rw n refl))
    | inr (c, h, w) ↦
        let u = G.get c.user in
        let d : Con E = record c {
          user = G.set (record u { total_rev_cnt = (u.total_rev_cnt + 1) % 2 ^ 32 }) c.user;
        } in
        rw (h, client_recv)
          (safe (record k { m_client = some d }) (rw four refl)
            (record { timer = v.timer; client = inr (d, refl, with_user c d.user w) }, refl))
  ]

  pub client_event-Leads :
      (events : ℕ) (k : ClientReconByDelCtr E)
      → Called events k
      → IsKept k
      → Safe (Leads (has_client k)) (client_event G events k)
  unfolding client_event
  client_event-Leads events k a v = elim v.client [
    | inl (n, none_live) ↦ rw (n, client_event) (safe k refl (v, rw n refl))
    | inr (c, h, w) ↦
        rw (h, client_event)
          (Safe->>= _ _ (recon_event events c w (called events k c h a)) (λ d x.
            safe (record k { m_client = some d }) refl
              (record { timer = v.timer; client = inr (d, refl, x) }, refl)))
  ]
