-- ===== src/Samples/Ending.antt =====
-- samples/server_prj/main.cc with src/listener.cc: a connection that is asked to end, and its object.
use libevent_cpp.Prelude.{ℕ, ◌^◌, ◌<◌, ◌≡◌, ap, ◌∙◌, inl, inr, true, none, some, List, [], length}
use libevent_cpp.Prelude.Outcome.{ok}
use libevent_cpp.Bytes.{AllBytes}
use libevent_cpp.Env.{Env}
use libevent_cpp.Con.{Con}
use libevent_cpp.Con.Frames.{frame_all}
use libevent_cpp.Con.Framing.{AllPayloads}
use libevent_cpp.Con.Receive.{Holds}
use libevent_cpp.Con.Session.{flatten, session}
use libevent_cpp.Con.Sending.{IsUp}
use libevent_cpp.Con.Sending.Reliable.{Reliable}
use libevent_cpp.ConMgr.{ConMgr, find_conn, post_del_conn, on_timer_del_conn}
use libevent_cpp.ConMgr.Owned
use libevent_cpp.ConMgr.Walk.{Call}
use libevent_cpp.ConMgr.Posted.{run_calls, AllFresh, posted_deleted}
use libevent_cpp.Listener.{Manages}
use libevent_cpp.Samples.Server.{server}
use libevent_cpp.Samples.Echo.{AllTexts, any_del, Fits}
use libevent_cpp.Samples.Talk.{echo_session}

module _ {E : Env} (M : Manages (E.User)) (id bev p : ℕ) where
  -- On a server's connection that is up, registered in a valid manager, and holds no byte, where
  -- libevent takes every write: messages that are C strings (payloads, less than 2^31 bytes with
  -- their headers, and such that all their answers fit in the send limit) arrive, cut up in any way.
  -- If one says "del", the connection ends with the session, its bufferevent is freed, and, whatever
  -- calls the manager gets after that (new objects at free addresses, under free identifiers), the
  -- next run of the timer deletes its object.
  pub ended_deleted :
      (ms xss : List (List ℕ)) (c : Con E) (b : E.Bev) (cs : List Call)
      → Reliable E
      → Owned.IsValid (M.get c.user)
      → find_conn id (M.get c.user) ≡ some p
      → IsUp bev c b
      → Holds bev c b []
      → AllPayloads ms
      → AllTexts ms
      → any_del ms ≡ true
      → Fits c.m_msbs (E.output b) ms
      → flatten xss ≡ frame_all ms
      → AllBytes (flatten xss)
      → length (flatten xss) < 2 ^ 31
      → AllFresh cs (post_del_conn id (M.get c.user)).0
      → (c' : Con E) × (o : ConMgr) × (session (server M id) bev xss c ≡ ok c')
        × (c'.bevs bev ≡ none)
        × (on_timer_del_conn (run_calls cs (M.get c'.user)) ≡ ok o)
        × (o.objs p ≡ none)
  ended_deleted ms xss c b cs rel owned found up v pay texts del fits cut bytes small fresh =
      elim (echo_session M id bev p ms xss c b rel owned found up v pay texts fits cut bytes
        small) [
          | inl (c', b', no_del, run, up', user, answers) ↦ cc
          | inr (c', del', run, gone, shut, posted) ↦
              let (o, timer, lives, deleted) =
                posted_deleted id p (M.get c.user) cs owned found fresh in
              (
                c',
                o,
                run,
                gone,
                ap (λ m. on_timer_del_conn (run_calls cs m)) posted ∙ timer,
                deleted,
              )
        ]
