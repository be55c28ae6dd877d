-- ===== src/Samples/Talk.antt =====
-- samples/server_prj/main.cc: a session of Connect2Client, and one with a client of its own.
use libevent_cpp.Prelude.{
  ℕ, ◌^◌, ◌≤◌, ◌<◌, ◌≡◌, refl, ap, sym, ◌∙◌, ◌⊎◌, inl, inr, true, false, none, some, List, [], ◌∷◌,
  ◌++◌, arith, length, append-nil,
}
use libevent_cpp.Prelude.Int.{is_zero}
use libevent_cpp.Prelude.Outcome.{Outcome, ok, ◌>>=◌}
use libevent_cpp.Bytes.{AllBytes}
use libevent_cpp.Env.{Env}
use libevent_cpp.Con.{Con, set_event_cb_log}
use libevent_cpp.Con.Frames.{frame, frame_all}
use libevent_cpp.Con.Framing.{AllPayloads}
use libevent_cpp.Con.Receive.{Holds}
use libevent_cpp.Con.Session.{flatten, session, still, ended, session_frames}
use libevent_cpp.Con.Sending.{IsUp}
use libevent_cpp.Con.Sending.Reliable.{Reliable, Took, Took-Holds, send_data_pack-Took}
use libevent_cpp.ConMgr.{find_conn, post_del_conn}
use libevent_cpp.ConMgr.Owned
use libevent_cpp.Listener.{Manages, svr_handlers}
use libevent_cpp.Samples.{str2msg_pack}
use libevent_cpp.Samples.Server.{plain, server_on_connected, server}
use libevent_cpp.Samples.Echo.{AllTexts, any_del, any_del-append, Fits, Echoed, echoing}

-- What Str2MsgPack makes of "s".
abbrev pub hello : List ℕ
hello = 115 ∷ 0 ∷ []

module _ {E : Env} (M : Manages (E.User)) (id bev : ℕ) where
  -- A new connection is greeted, and then serves.
  unfoldable pub serve_new : List (List ℕ) → Con E → Outcome (Con E)
  serve_new xss c = (server M id).on_connected c >>= λ c'. session (server M id) bev xss c'

module _ {E : Env} (M : Manages (E.User)) (id bev p : ℕ) where
  -- On a server's connection that is up, registered under `id` in a valid manager, and holds no
  -- byte, where libevent takes every write: messages that are C strings (payloads, less than 2^31
  -- bytes with their headers, and such that all their answers fit in the send limit) arrive, cut
  -- up in any way. If none says "del", the connection is still up and has put the frame of each
  -- message, in order, into its output, and nothing else. If one does, the connection is dropped,
  -- its bufferevent is freed, and the manager is as PostDelConn of its identifier leaves it.
  pub echo_session :
      (ms xss : List (List ℕ)) (c : Con E) (b : E.Bev)
      → Reliable E
      → Owned.IsValid (M.get c.user)
      → find_conn id (M.get c.user) ≡ some p
      → IsUp bev c b
      → Holds bev c b []
      → AllPayloads ms
      → AllTexts ms
      → Fits c.m_msbs (E.output b) ms
      → flatten xss ≡ frame_all ms
      → AllBytes (flatten xss)
      → length (flatten xss) < 2 ^ 31
      → ((c' : Con E) × (b' : E.Bev) × (any_del ms ≡ false)
          × (session (server M id) bev xss c ≡ ok c')
          × IsUp bev c' b'
          × (c'.user ≡ c.user)
          × (E.output b' ≡ E.output b ++ frame_all ms))
        ⊎ ((c' : Con E) × (any_del ms ≡ true)
            × (session (server M id) bev xss c ≡ ok c')
            × (c'.bevs bev ≡ none)
            × (is_zero c'.m_fd ≡ true)
            × (M.get c'.user ≡ (post_del_conn id (M.get c.user)).0))
  unfolding frame_all
  echo_session ms xss c b rel owned found up v pay texts fits cut bytes small =
      let K = echoing M id bev p c.user c.m_msbs (E.output b) rel owned found in
      let start : Echoed M id bev p c.user c.m_msbs (E.output b) [] c b = record {
        up = up;
        output_is = sym (append-nil (E.output b));
        user_is = refl;
        limit_is = refl;
        no_del = refl;
      } in
      elim (session_frames (server M id) bev K ms xss [] c b v start (texts, fits) pay cut bytes
        small) [
          | still c' b' run held h ↦ inl (c', b', h.no_del, run, h.up, h.user_is, h.output_is)
          | ended c' ns later split run gone d ↦ inr (
            c',
            ap any_del split ∙ any_del-append ns later ∙ rw d.last_del refl,
            run,
            gone,
            d.closed,
            d.posted,
          )
        ]

  server_greets :
      (c : Con E) (b : E.Bev)
      → Reliable E
      → IsUp bev c b
      → (c.m_msbs ≡ 0) ⊎ (length (E.output b) ≤ c.m_msbs)
      → (c' : Con E) × (b' : E.Bev) × ((server M id).on_connected c ≡ ok c')
        × Took bev c b hello c' b'
  unfolding server svr_handlers server_on_connected set_event_cb_log str2msg_pack
  server_greets c b rel up room =
      let c0 = set_event_cb_log true c in
      let up0 : IsUp bev c0 b = record {
        attached = up.attached;
        alive = up.alive;
        live = up.live;
        is_open = up.is_open;
        connected = up.connected;
      } in
      let (c', b', sends, t) =
        send_data_pack-Took (svr_handlers M id plain) bev hello c0 b rel up0
          (record { nonempty = omega arith; fits = omega arith }) room in
      (
        c',
        b',
        rw sends refl,
        record {
          up = t.up;
          input_same = t.input_same;
          output_more = t.output_more;
          user_same = t.user_same;
          limit_same = t.limit_same;
          mode_same = t.mode_same;
          pack_len_same = t.pack_len_same;
        },
      )

  -- A new connection of the server, which is up and has an empty output, answers the messages of
  -- `echo_session`, none of which says "del", by its greeting and each message, in order.
  pub serve_new-hello :
      (ms xss : List (List ℕ)) (c : Con E) (b : E.Bev)
      → Reliable E
      → Owned.IsValid (M.get c.user)
      → find_conn id (M.get c.user) ≡ some p
      → IsUp bev c b
      → Holds bev c b []
      → E.output b ≡ []
      → AllPayloads ms
      → AllTexts ms
      → any_del ms ≡ false
      → Fits c.m_msbs (frame hello) ms
      → flatten xss ≡ frame_all ms
      → AllBytes (flatten xss)
      → length (flatten xss) < 2 ^ 31
      → (c' : Con E) × (b' : E.Bev) × (serve_new M id bev xss c ≡ ok c')
        × IsUp bev c' b'
        × (E.output b' ≡ frame_all (hello ∷ ms))
  unfolding serve_new frame_all
  serve_new-hello ms xss c b rel owned found up v empty pay texts quiet fits cut bytes small =
      let room : (c.m_msbs ≡ 0) ⊎ (length (E.output b) ≤ c.m_msbs) = rw empty (inr (omega arith)) in
      let (c1, b1, greets, t) = server_greets c b rel up room in
      let out : E.output b1 ≡ frame hello = t.output_more ∙ ap (λ xs. xs ++ frame hello) empty in
      elim (echo_session ms xss c1 b1 rel (rw t.user_same owned) (rw t.user_same found) t.up
        (Took-Holds bev c b hello [] c1 b1 v t) pay texts (rw (t.limit_same, out) fits) cut bytes
        small) [
          | inl (c2, b2, no_del, run, up2, user, answers) ↦
              (c2, b2, rw greets run, up2, answers ∙ ap (λ xs. xs ++ frame_all ms) out)
          | inr (c2, del, run, gone, shut, posted) ↦ cc
        ]
