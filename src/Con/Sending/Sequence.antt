-- ===== src/Con/Sending/Sequence.antt =====
-- Messages that SendPack takes one after the other.
use libevent_cpp.Prelude.{
  ℕ, ◌≡◌, ap, sym, ◌∙◌, subst, inl, inr, Bool, true, false, List, [], ◌∷◌, ◌++◌, length,
  append_assoc, append-nil, Bool-cases, if◌then◌else◌,
}
use libevent_cpp.Prelude.Outcome.{Outcome, ok, ◌>>=◌, >>=-returns}
use libevent_cpp.Env.{Env}
use libevent_cpp.Con.{Con, Handlers}
use libevent_cpp.Con.Frames.{frame, frame_all}
use libevent_cpp.Con.Framing.{IsPayload, AllPayloads}
use libevent_cpp.Con.Send.{write_frame, check_backlog, checked, send_pack_string}
use libevent_cpp.Con.Sending.{
  IsUp, Sent, sent, refused, check_backlog-true, send_pack_string-checked, write_frame-Sent,
}

module _ {E : Env} where
  module _ (U : Handlers E) where
    send_true :
        (bev : ℕ) (m : List ℕ) (c c' : Con E) (b : E.Bev)
        → Sent bev c b m (ok (c', true))
        → (b' : E.Bev) × IsUp bev c' b'
          × (E.input b' ≡ E.input b)
          × (E.output b' ≡ E.output b ++ frame m)
    send_true bev m c c' b (sent c1 b1 e v i o u) =
        let same : c1 ≡ c' = cc e in (b1, subst (λ d. IsUp bev d b1) same v, i, o)
    send_true bev m c c' b (refused c1 b1 e v i o u) = cc e

    -- A SendPack of a payload, on a connection that is up, that returned true has put the frame of
    -- the message behind what waited to be sent, and left the connection up and what it received
    -- alone.
    send_pack_string-true :
        (bev : ℕ) (m : List ℕ) (c c' : Con E) (b : E.Bev)
        → IsUp bev c b
        → IsPayload m
        → send_pack_string U m c ≡ ok (c', true)
        → (b' : E.Bev) × IsUp bev c' b'
          × (E.input b' ≡ E.input b)
          × (E.output b' ≡ E.output b ++ frame m)
    unfolding checked
    send_pack_string-true bev m c c' b v pay h =
        let (r, e1, e2) =
          >>=-returns (check_backlog U bev c)
            (λ (r : Con E × Bool).
              if r.1 then write_frame bev (length m) m r.0 else ok (r.0, false))
            (sym (send_pack_string-checked U bev m c b v pay) ∙ h) in
        elim (Bool-cases r.1) [
          | inl t ↦
              let same : r.0 ≡ c = check_backlog-true U bev c r.0 (rw (← t) e1) in
              let wrote : write_frame bev (length m) m c ≡ ok (c', true) = rw (t, same) at e2 in
              send_true bev m c c' b (rw wrote at (write_frame-Sent bev m c b v))
          | inr f ↦
              let e3 : ◌≡◌ {A = Outcome (Con E × Bool)} (ok (r.0, false)) (ok (c', true)) =
                rw f at e2 in
              cc e3
        ]

    -- Messages sent one after the other, until one is not taken.
    unfoldable pub send_all : List (List ℕ) → Con E → Outcome (Con E × Bool)
    send_all [] c = ok (c, true)
    send_all (m ∷ ms) c =
        send_pack_string U m c >>= λ r. if r.1 then send_all ms r.0 else ok (r.0, false)

    -- Payloads that SendPack took one after the other, all of them, on a connection that is up, wait
    -- in the output as their frames, in order, behind what was there.
    pub send_all-frame_all :
        (bev : ℕ) (ms : List (List ℕ)) (c c' : Con E) (b : E.Bev)
        → IsUp bev c b
        → AllPayloads ms
        → send_all ms c ≡ ok (c', true)
        → (b' : E.Bev) × IsUp bev c' b' × (E.output b' ≡ E.output b ++ frame_all ms)
    unfolding send_all frame_all
    send_all-frame_all bev [] c c' b v pay h =
        let same : c ≡ c' = cc h in
        (b, subst (λ d. IsUp bev d b) same v, sym (append-nil (E.output b)))
    send_all-frame_all bev (m ∷ ms) c c' b v pay h =
        let (r, e1, e2) =
          >>=-returns (send_pack_string U m c)
            (λ (r : Con E × Bool). if r.1 then send_all ms r.0 else ok (r.0, false)) h in
        elim (Bool-cases r.1) [
          | inl t ↦
              let (b1, v1, i1, o1) = send_pack_string-true bev m c r.0 b v pay.0 (rw (← t) e1) in
              let (b2, v2, o2) = send_all-frame_all bev ms r.0 c' b1 v1 pay.1 (rw t at e2) in
              (
                b2,
                v2,
                o2
                    ∙ ap (λ xs. xs ++ frame_all ms) o1
                    ∙ append_assoc (E.output b) (frame m) (frame_all ms),
              )
          | inr f ↦
              let e3 : ◌≡◌ {A = Outcome (Con E × Bool)} (ok (r.0, false)) (ok (c', true)) =
                rw f at e2 in
              cc e3
        ]
