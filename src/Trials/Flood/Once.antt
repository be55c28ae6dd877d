-- ===== src/Trials/Flood/Once.antt =====
-- test/combine2, ReConClient: of many messages that have arrived, OnRecv gets one.
use libevent_cpp.Prelude.{
  ℕ, ◌^◌, ◌<◌, ◌≡◌, ◌≢◌, refl, Bool, true, false, none, some, List, [], ◌∷◌, ◌++◌, arith, length,
}
use libevent_cpp.Prelude.Int.{is_zero}
use libevent_cpp.Prelude.Outcome.{ok}
use libevent_cpp.Bytes.{AllBytes}
use libevent_cpp.Env.{Env}
use libevent_cpp.Con.{Con, disconnect, free, reset, bufferevent_free, update}
use libevent_cpp.Con.Frames.{frame_all}
use libevent_cpp.Con.Framing.{AllPayloads}
use libevent_cpp.Con.Receive.{Holds, pack}
use libevent_cpp.Con.Serving.{Answer, leaves, Contract}
use libevent_cpp.Con.Session.{flatten, session, still, ended, session_frames}
use libevent_cpp.Trials.Flood.{Member, re_con, re_con_on_recv}
use libevent_cpp.Samples.Server.{plain}

module _ {E : Env} (F : Member (E.User) Bool) (bev : ℕ) where
  -- Up to the first message, nothing has happened.
  record Fresh (ms : List (List ℕ)) (c : Con E) (b : E.Bev) : Type 0 where
    pub none_yet : ms ≡ []
    pub buf_e : c.m_buf_e ≡ some bev
    pub not_dropped : F.get c.user ≡ false

  -- It has dropped the connection at that message.
  record Dropped (ms : List (List ℕ)) (c : Con E) : Type 0 where
    pub one : length ms ≡ 1
    pub is_discon : F.get c.user ≡ true
    pub closed : is_zero c.m_fd ≡ true
    pub no_buf_e : c.m_buf_e ≡ none

  dropped_run :
      (c : Con E) (b : E.Bev)
      → c.m_buf_e ≡ some bev
      → c.bevs bev ≡ some b
      → is_zero c.m_fd ≡ false
      → disconnect plain c
        ≡ ok (
            reset (record c { bevs = update c.bevs bev none; dying = update c.dying bev (some b) }))
  unfolding disconnect free bufferevent_free
  dropped_run c b a l o = ground (arith, a, l, o)

  re_con-Answer :
      (ms : List (List ℕ)) (m : List ℕ) (c : Con E) (b : E.Bev)
      → Fresh ms c b
      → c.bevs bev ≡ some b
      → is_zero c.m_fd ≡ false
      → Answer bev c b
          (Fresh (ms ++ m ∷ []))
          (Dropped (ms ++ m ∷ []))
          ((re_con F).on_recv (pack m) c)
  unfolding re_con re_con_on_recv reset
  re_con-Answer ms m c b v live is_open =
      let d : Con E =
        record (reset
          (record c { bevs = update c.bevs bev none; dying = update c.dying bev (some b) })) {
            user = F.set true c.user;
          } in
      leaves d (rw (v.not_dropped, dropped_run c b v.buf_e live is_open) refl) (ground arith) refl
        refl
        (record {
          one = rw v.none_yet refl;
          is_discon = F.get-set true c.user;
          closed = refl;
          no_buf_e = refl;
        })

  abbrev once : Contract {E = E} (re_con F) bev
  once = record {
    After = Fresh;
    Closed = Dropped;
    Can = λ ms. Unit {0};
    Can-prefix = λ ms ns h. tt;
    After-IsStable = λ ms c b n b' freed v same. record {
      none_yet = v.none_yet;
      buf_e = v.buf_e;
      not_dropped = v.not_dropped;
    };
    on_recv_lem = λ ms m c b v live is_open pay can. re_con-Answer ms m c b v live is_open;
  }

  -- ReConClient, open and with no byte waiting, and not dropped yet: however many messages arrive
  -- (payloads, at least one, less than 2^31 bytes), and however they are cut up, its assertion does
  -- not fail, since OnRecv is called once: the connection is closed then, and its bufferevent freed.
  pub re_con_once :
      (ms xss : List (List ℕ)) (c : Con E) (b : E.Bev)
      → Holds bev c b []
      → c.m_buf_e ≡ some bev
      → F.get c.user ≡ false
      → AllPayloads ms
      → ms ≢ []
      → flatten xss ≡ frame_all ms
      → AllBytes (flatten xss)
      → length (flatten xss) < 2 ^ 31
      → (d : Con E) × (session (re_con F) bev xss c ≡ ok d)
        × (d.bevs bev ≡ none)
        × (is_zero d.m_fd ≡ true)
        × (d.m_buf_e ≡ none)
        × (F.get d.user ≡ true)
  re_con_once ms xss c b v a f pay some_ms cut bytes small =
      let start : Fresh [] c b = record { none_yet = refl; buf_e = a; not_dropped = f } in
      elim (session_frames (re_con F) bev once ms xss [] c b v start tt pay cut bytes small) [
        | still d b1 run held h ↦ absurd (some_ms h.none_yet)
        | ended d ns later split run gone h ↦ (d, run, gone, h.closed, h.no_buf_e, h.is_discon)
      ]
