-- ===== src/Listener/System/Handled.antt =====
-- What one callback does with an open connection of a server.
use libevent_cpp.Prelude.{
  ℕ, ◌/◌, ◌%◌, ◌^◌, ◌<◌, ◌≡◌, refl, ap, ◌∙◌, inl, inr, true, false, none, some, List, [], ◌++◌,
  arith, length, ◌==◌, Bool-cases,
}
use libevent_cpp.Prelude.Int.{is_zero}
use libevent_cpp.Prelude.Outcome.{Outcome, ok}
use libevent_cpp.Bytes.{AllBytes}
use libevent_cpp.Env.{Env}
use libevent_cpp.Con.{Con, Handlers, conn_event_callback, disconnect}
use libevent_cpp.Con.Framing.{IsPayload}
use libevent_cpp.Con.Receive.{Holds, pack}
use libevent_cpp.Con.Serving.{Answer, keeps, leaves, Contract}
use libevent_cpp.Con.Delivery.{waits, drops, closes}
use libevent_cpp.Con.Bound.{rest-bound}
use libevent_cpp.Con.Session.{arrive, arrive-Ends}
use libevent_cpp.Con.Valid.{attached, still_there_lem}
use libevent_cpp.ConMgr.{ConMgr, post_del_conn}
use libevent_cpp.Listener.{Manages, svr_handlers, no_use_listener_connector}
use libevent_cpp.Listener.Accept.{disconnect_svr}

module _ {E : Env} (M : Manages (E.User)) where
  -- An open connection, when the manager is `m`.
  pub record Kept (bev : ℕ) (m : ConMgr) (c : Con E) (b : E.Bev) : Type 0 where
    pub buf_e : c.m_buf_e ≡ some bev
    pub mgr_same : M.get c.user ≡ m

  -- One that was closed by SvrCon::DisConnect or ConCom::DisConnect, when the manager was `m`.
  pub record Left (id : ℕ) (m : ConMgr) (c : Con E) : Type 0 where
    pub no_buf_e : c.m_buf_e ≡ none
    pub no_fd : is_zero c.m_fd ≡ true
    pub posted : M.get c.user ≡ (post_del_conn id m).0

  -- A callback of a class leaves its connection open, and the manager alone; or it drops the
  -- connection.
  abbrev pub Obeys : ℕ → ℕ → Con E → E.Bev → Outcome (Con E) → Type 0
  Obeys id bev c b r =
      Answer bev c b
        (λ c' b'. Kept bev (M.get c.user) c' b' × (c'.m_rev_pack_len ≡ c.m_rev_pack_len))
        (Left id (M.get c.user)) r

  pub record IsClass (app : Handlers E) : Type 0 where
    pub on_recv_obeys :
        (id bev : ℕ) (m : List ℕ) (c : Con E) (b : E.Bev)
        → c.m_buf_e ≡ some bev
        → c.bevs bev ≡ some b
        → is_zero c.m_fd ≡ false
        → IsPayload m
        → Obeys id bev c b (app.on_recv (pack m) c)
    pub on_connected_obeys :
        (id bev : ℕ) (c : Con E) (b : E.Bev)
        → c.m_buf_e ≡ some bev
        → c.bevs bev ≡ some b
        → is_zero c.m_fd ≡ false
        → Obeys id bev c b (app.on_connected c)
    pub on_error_obeys :
        (id bev e : ℕ) (c : Con E) (b : E.Bev)
        → c.m_buf_e ≡ some bev
        → c.bevs bev ≡ some b
        → is_zero c.m_fd ≡ false
        → Obeys id bev c b (app.on_error e c)

  -- The class that a Listener has by default.
  pub no_use-IsClass : IsClass no_use_listener_connector
  unfolding no_use_listener_connector
  no_use-IsClass = record {
    on_recv_obeys = λ id bev m c b u live is_open pay.
        keeps c b refl live refl is_open (refl, refl) (record { buf_e = u; mgr_same = refl }, refl);
    on_connected_obeys = λ id bev c b u live is_open.
        keeps c b refl live refl is_open (refl, refl) (record { buf_e = u; mgr_same = refl }, refl);
    on_error_obeys = λ id bev e c b u live is_open.
        keeps c b refl live refl is_open (refl, refl) (record { buf_e = u; mgr_same = refl }, refl);
  }

  -- The connection is still open, and the manager is `m` as before; or it is closed and posted.
  pub data Handled (id bev : ℕ) (m : ConMgr) (r : Outcome (Con E)) : Type 0 where
    stays :
        (c : Con E) (b : E.Bev) (q : List ℕ)
        → r ≡ ok c
        → Holds bev c b q
        → length q < 2 ^ 21
        → Kept bev m c b
        → Handled id bev m r
    left : (c : Con E) → r ≡ ok c → Left id m c → Handled id bev m r

  module _ (app : Handlers E) (id bev : ℕ) where
    disconnect-Left :
        (c : Con E) (b : E.Bev) (m : ConMgr)
        → c.bevs bev ≡ some b
        → is_zero c.m_fd ≡ false
        → c.is_deleted ≡ false
        → Kept bev m c b
        → (d : Con E) × (disconnect (svr_handlers M id app) c ≡ ok d) × Left id m d
    disconnect-Left c b m live is_open alive k =
        let (d, run, get, shut, freed, bare, there, dies) =
          disconnect_svr M id app c (attached bev b k.buf_e live is_open alive tt) is_open in
        (
          d,
          run,
          record {
            no_buf_e = bare;
            no_fd = shut;
            posted = get ∙ ap (λ n. (post_del_conn id n).0) k.mgr_same;
          },
        )

    module _ (cls : IsClass app) (m : ConMgr) where
      Kept-trans :
          (c c1 : Con E) (b b1 : E.Bev)
          → Kept bev m c b
          → Kept bev (M.get c.user) c1 b1
          → Kept bev m c1 b1
      Kept-trans c c1 b b1 k k1 = record { buf_e = k1.buf_e; mgr_same = k1.mgr_same ∙ k.mgr_same }

      Left-trans :
          (c c1 : Con E) (b : E.Bev) → Kept bev m c b → Left id (M.get c.user) c1 → Left id m c1
      Left-trans c c1 b k l = record {
        no_buf_e = l.no_buf_e;
        no_fd = l.no_fd;
        posted = l.posted ∙ ap (λ n. (post_del_conn id n).0) k.mgr_same;
      }

      -- What a callback that obeys does with an open connection.
      pub Obeys-Handled :
          (q : List ℕ) (c : Con E) (b : E.Bev) (r : Outcome (Con E))
          → Holds bev c b q
          → length q < 2 ^ 21
          → Kept bev m c b
          → Obeys id bev c b r
          → Handled id bev m r
      Obeys-Handled q c b r v idle k (keeps c1 b1 e live1 same open1 mode p) =
          stays c1 b1 q e
            (record {
              live = live1;
              is_open = open1;
              framed = mode.0 ∙ v.framed;
              alive = mode.1 ∙ v.alive;
              bytes = v.bytes;
              small = v.small;
              image = rw (p.1, same) v.image;
            })
            idle (Kept-trans c c1 b b1 k p.0)
      Obeys-Handled q c b r v idle k (leaves c1 e gone shut there l) =
          left c1 e (Left-trans c c1 b k l)

      disconnect_closed :
          (c : Con E) → is_zero c.m_fd ≡ true → disconnect (svr_handlers M id app) c ≡ ok c
      unfolding disconnect
      disconnect_closed c z = rw z refl

      recv-Answer :
          (msg : List ℕ) (c : Con E) (b : E.Bev)
          → Kept bev m c b
          → c.bevs bev ≡ some b
          → is_zero c.m_fd ≡ false
          → IsPayload msg
          → Answer bev c b (Kept bev m) (Left id m) ((svr_handlers M id app).on_recv (pack msg) c)
      unfolding svr_handlers
      recv-Answer msg c b k live is_open pay =
          elim (cls.on_recv_obeys id bev msg c b k.buf_e live is_open pay) [
            | keeps c1 b1 e live1 same open1 mode p ↦
                keeps c1 b1 e live1 same open1 mode (Kept-trans c c1 b b1 k p.0)
            | leaves c1 e gone shut there l ↦ leaves c1 e gone shut there (Left-trans c c1 b k l)
          ]

      serving : Contract {E = E} (svr_handlers M id app) bev
      serving = record {
        After = λ ms. Kept bev m;
        Closed = λ ms. Left id m;
        Can = λ ms. Unit {0};
        Can-prefix = λ ms ns h. tt;
        After-IsStable =
            λ ms c b n b' freed k same. record { buf_e = k.buf_e; mgr_same = k.mgr_same };
        on_recv_lem = λ ms msg c b k live is_open pay can. recv-Answer msg c b k live is_open pay;
      }

      -- Bytes arrive on an open connection.
      pub arrive-Handled :
          (xs q : List ℕ) (c : Con E) (b : E.Bev)
          → Holds bev c b q
          → length q < 2 ^ 21
          → Kept bev m c b
          → AllBytes xs
          → length xs < 2 ^ 30
          → Handled id bev m (arrive (svr_handlers M id app) bev xs c)
      unfolding serving
      arrive-Handled xs q c b v idle k bytes small =
          elim (arrive-Ends (svr_handlers M id app) bev serving [] xs c b q v k tt bytes
            (omega arith)) [
              | waits c1 b1 e v1 k1 good ↦
                  stays c1 b1 _ e v1 (omega (arith, rest-bound (q ++ xs) good)) k1
              | drops c1 b1 e v1 k1 bad ↦
                  let (d, run, l) = disconnect-Left c1 b1 m v1.live v1.is_open v1.alive k1 in
                  left d (e ∙ run) l
              | closes c1 ms later cut e gone l ↦ left c1 e l
            ]

      -- libevent reports events of an open connection.
      pub reported-Handled :
          (events : ℕ) (q : List ℕ) (c : Con E) (b : E.Bev)
          → Holds bev c b q
          → length q < 2 ^ 21
          → Kept bev m c b
          → Handled id bev m (conn_event_callback (svr_handlers M id app) events c)
      unfolding conn_event_callback svr_handlers
      reported-Handled events q c b v idle k = elim (Bool-cases (events / 0x80 % 2 == 1)) [
        | inl t ↦
            let c1 : Con E = record c { m_is_connect = true } in
            rw t (
              Obeys-Handled q c1 b _
                (record {
                  live = v.live;
                  is_open = v.is_open;
                  framed = v.framed;
                  alive = v.alive;
                  bytes = v.bytes;
                  small = v.small;
                  image = v.image;
                })
                idle (record { buf_e = k.buf_e; mgr_same = k.mgr_same })
                (cls.on_connected_obeys id bev c1 b k.buf_e v.live v.is_open))
        | inr f ↦ rw f (elim (cls.on_error_obeys id bev events c b k.buf_e v.live v.is_open) [
          | keeps c1 b1 e live1 same open1 mode p ↦
              let (d, run, l) =
                disconnect-Left c1 b1 m live1 open1 (mode.1 ∙ v.alive)
                  (Kept-trans c c1 b b1 k p.0) in
              left d (rw (e, still_there_lem c1 (mode.1 ∙ v.alive)) run) l
          | leaves c1 e gone shut there l ↦
              left c1 (rw (e, still_there_lem c1 (there ∙ v.alive)) (disconnect_closed c1 shut))
                (Left-trans c c1 b k l)
        ])
      ]
