-- ===== src/Trials/Flood/Run.antt =====
-- test/combine2 as a whole: UNITTEST(dicon_on_max_revmsg), from the time that the connection is up.
use libevent_cpp.Prelude.{
  ℕ, zero, suc, ◌^◌, ◌≤◌, ◌<◌, ◌≡◌, refl, ap, sym, ◌∙◌, inr, Bool, true, false, none, some, List,
  [], ◌∷◌, ◌++◌, arith, length, append-nil,
}
use libevent_cpp.Prelude.Int.{is_zero}
use libevent_cpp.Prelude.Outcome.{ok, ◌>>=◌}
use libevent_cpp.Bytes.{AllBytes}
use libevent_cpp.Env.{Env}
use libevent_cpp.Con.{Con, max_max_send_buf_size}
use libevent_cpp.Con.Frames.{frame, frame_all}
use libevent_cpp.Con.Framing.{IsPayload, AllPayloads}
use libevent_cpp.Con.Receive.{Holds, IsStable, pack}
use libevent_cpp.Con.Send.{send_pack_string}
use libevent_cpp.Con.Serving.{Answer, keeps, Contract}
use libevent_cpp.Con.Session.{flatten, session, still, ended, session_frames}
use libevent_cpp.Con.Sending.{IsUp}
use libevent_cpp.Con.Sending.Reliable.{Reliable, Took-Holds}
use libevent_cpp.Con.Sending.Typed.{EachBytes, frame_all-AllBytes}
use libevent_cpp.Listener.{Manages}
use libevent_cpp.Samples.Server.{plain}
use libevent_cpp.Trials.Flood.{Member, ones, abc, flood, re_con, re_con_on_connected}
use libevent_cpp.Trials.Flood.Once.{re_con_once}
use libevent_cpp.Trials.Flood.Sends.{
  times, length-ones, length-frame_all-times, send_pack_string-Took, flood_on_recv-Sent,
}

-- What the server sends.
abbrev pub thousand : List (List ℕ)
thousand = times 1000 (ones 1000)

module _ {E : Env} (M : Manages (E.User)) (id bev : ℕ) (rel : Reliable E) where
  abbrev answers : List (List ℕ) → List (List ℕ)
  answers [] = []
  answers (m ∷ ms) = thousand

  -- After no message, or one.
  record Flooded (ms : List (List ℕ)) (c : Con E) (b : E.Bev) : Type 0 where
    pub up : IsUp bev c b
    pub output_is : E.output b ≡ frame_all (answers ms)
    pub limit_is : c.m_msbs ≡ max_max_send_buf_size

  Flooded-IsStable : (ms : List (List ℕ)) → IsStable bev (Flooded ms)
  Flooded-IsStable ms c b n b' freed v same = record {
    up = record {
      attached = v.up.attached;
      alive = v.up.alive;
      live = ground arith;
      is_open = v.up.is_open;
      connected = v.up.connected;
    };
    output_is = same ∙ v.output_is;
    limit_is = v.limit_is;
  }

  flood-Answer :
      (ms : List (List ℕ)) (m : List ℕ) (c : Con E) (b : E.Bev)
      → Flooded ms c b
      → length (ms ++ m ∷ []) ≤ 1
      → Answer bev c b (Flooded (ms ++ m ∷ [])) (λ _. ⊥) ((flood M id).on_recv (pack m) c)
  unfolding frame_all
  flood-Answer (k ∷ []) m c b v few = absurd (omega (arith, few))
  flood-Answer (k ∷ l ∷ ms) m c b v few = absurd (omega (arith, few))
  flood-Answer [] m c b v few =
      let (c1, b1, run, s) =
        flood_on_recv-Sent M id bev (pack m) c b rel v.up v.output_is v.limit_is in
      keeps c1 b1 run s.up.live s.input_same s.up.is_open s.mode_same (record {
        up = s.up;
        output_is = s.output_more ∙ ap (λ xs. xs ++ frame_all thousand) v.output_is;
        limit_is = s.limit_same ∙ v.limit_is;
      })

  few-prefix : (ms ns : List (List ℕ)) → length (ms ++ ns) ≤ 1 → length ms ≤ 1
  few-prefix [] ns h = omega arith
  few-prefix (m ∷ []) ns h = omega arith
  few-prefix (m ∷ n ∷ ms) ns h = absurd (omega (arith, h))

  abbrev flooding : Contract {E = E} (flood M id) bev
  flooding = record {
    After = Flooded;
    Closed = λ ms c. ⊥;
    Can = λ ms. length ms ≤ 1;
    Can-prefix = few-prefix;
    After-IsStable = Flooded-IsStable;
    on_recv_lem = λ ms m c b v live is_open pay can. flood-Answer ms m c b v can;
  }

abc_payload : AllPayloads (abc ∷ [])
abc_payload = (record { nonempty = omega arith; fits = omega arith }, tt)

times-AllPayloads : (n : ℕ) (m : List ℕ) → IsPayload m → AllPayloads (times n m)
times-AllPayloads zero m h = tt
times-AllPayloads (suc n) m h = (h, times-AllPayloads n m h)

times-EachBytes : (n : ℕ) (m : List ℕ) → AllBytes m → EachBytes (times n m)
times-EachBytes zero m h = tt
times-EachBytes (suc n) m h = (h, times-EachBytes n m h)

ones-AllBytes : (n : ℕ) → AllBytes (ones n)
unfolding ones
ones-AllBytes zero = tt
ones-AllBytes (suc n) = (omega arith, ones-AllBytes n)

thousand-AllPayloads : AllPayloads thousand
thousand-AllPayloads =
    times-AllPayloads 1000 (ones 1000) (record {
      nonempty = omega (arith, length-ones 1000);
      fits = omega (arith, length-ones 1000);
    })

thousand_size : length (frame_all thousand) < 2 ^ 31
thousand_size = omega (arith, length-frame_all-times 1000 (ones 1000), length-ones 1000)

re_con_connects :
    {F : Env} (G : Member (F.User) Bool) (d : Con F)
    → (re_con G).on_connected d ≡ (send_pack_string plain abc d >>= λ r. ok r.0)
unfolding re_con re_con_on_connected
re_con_connects G d = refl

abc_size : length (frame_all (abc ∷ [])) < 2 ^ 31
abc_size = omega (arith, length-frame_all-times 1 abc)

-- The test passes. Both ends are up, with nothing in their buffers and the send limit of the
-- constructor, and libevent takes every write. The client sends "abc" when it is told that it is
-- connected; however that is cut up, the server answers with the thousand messages; and however
-- these are cut up, the client takes one and drops the connection, and its assertion, that nothing
-- comes after that, does not fail.
pub dicon_on_max_revmsg :
    (E F : Env) (M : Manages (E.User)) (G : Member (F.User) Bool) (id bev x : ℕ)
    (xss yss : List (List ℕ)) (c : Con E) (b : E.Bev) (d : Con F) (e : F.Bev)
    → Reliable E
    → Reliable F
    → IsUp bev c b
    → Holds bev c b []
    → E.output b ≡ []
    → c.m_msbs ≡ max_max_send_buf_size
    → IsUp x d e
    → Holds x d e []
    → F.output e ≡ []
    → d.m_msbs ≡ max_max_send_buf_size
    → G.get d.user ≡ false
    → flatten xss ≡ frame_all (abc ∷ [])
    → flatten yss ≡ frame_all thousand
    → (d1 : Con F) × (e1 : F.Bev) × (c1 : Con E) × (b1 : E.Bev) × (d2 : Con F) × ((re_con
            G).on_connected
          d
        ≡ ok d1)
      × (d1.bevs x ≡ some e1)
      × (F.output e1 ≡ flatten xss)
      × (session (flood M id) bev xss c ≡ ok c1)
      × (c1.bevs bev ≡ some b1)
      × (E.output b1 ≡ flatten yss)
      × (session (re_con G) x yss d1 ≡ ok d2)
      × (is_zero d2.m_fd ≡ true)
      × (d2.bevs x ≡ none)
      × (G.get d2.user ≡ true)
unfolding frame_all
dicon_on_max_revmsg E F M G id bev x xss yss c b d e rel rel' up v bare limit up' v' bare' limit'
      fresh cut cut' =
    let (d1, e1, sends, t) =
      send_pack_string-Took plain x abc d e rel' up' abc_payload.0 (inr (rw bare' (omega arith))) in
    let asked : F.output e1 ≡ flatten xss =
      t.output_more ∙ ap (λ xs. xs ++ frame abc) bare' ∙ sym (append-nil (frame abc)) ∙ sym cut in
    let start : Flooded M id bev rel [] c b = record {
      up = up;
      output_is = bare;
      limit_is = limit;
    } in
    elim (session_frames (flood M id) bev (flooding M id bev rel) (abc ∷ []) xss [] c b v start
      (omega arith) abc_payload cut (rw cut (frame_all-AllBytes (abc ∷ []) ((omega arith), tt)))
      (rw cut abc_size)) [
        | ended c1 ms later split run gone h ↦ absurd h
        | still c1 b1 run held h ↦
            let (d2, run2, gone, shut, no_buf, dropped) =
              re_con_once G x thousand yss d1 e1 (Took-Holds x d e abc [] d1 e1 v' t) t.up.attached
                (rw t.user_same fresh) thousand-AllPayloads (λ h. cc) cut'
                (rw cut' (
                  frame_all-AllBytes thousand
                    (times-EachBytes 1000 (ones 1000) (ones-AllBytes 1000))))
                (rw cut' thousand_size) in
            (
              d1,
              e1,
              c1,
              b1,
              d2,
              rw (re_con_connects G d) (rw sends refl),
              t.up.live,
              asked,
              run,
              held.live,
              h.output_is ∙ sym cut',
              run2,
              shut,
              gone,
              dropped,
            )
      ]
