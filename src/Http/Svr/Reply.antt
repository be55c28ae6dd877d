-- ===== src/Http/Svr/Reply.antt =====
-- The one request that a BaseHttpSvr works on, and its one reply.
use libevent_cpp.Prelude.{
  ℕ, ◌+◌, ◌≡◌, refl, ap, ◌∙◌, inl, inr, Bool, false, Option, none, some, List, [], ◌∷◌, arith, ◌==◌,
  Bool-cases,
}
use libevent_cpp.Prelude.Outcome.{Outcome, ok, Safe, safe, ◌>>=◌}
use libevent_cpp.Http.{Evbuffer, c_str}
use libevent_cpp.Http.Drain.{drain_while_length_lem}
use libevent_cpp.Http.Svr.{
  http_ok, http_servunavail, Req, SentReply, Svr, set_req, init, deref_req, get_data, add_header,
  reply, send, close_request, rev_request_cb,
}

pub set_req-same : {A : Type 0} (f : ℕ → Option A) (p : ℕ) (v : Option A) → set_req f p v p ≡ v
set_req-same f p v = ground arith

module _ {B : Evbuffer} where
  -- The request `p` is current and waits; or it was answered, once, after the replies `base`.
  pub data Serving (p : ℕ) (base : List SentReply) (s : Svr B) : Type 0 where
    pending :
        (r : Req B) → s.m_cur_req ≡ some p → s.reqs p ≡ some r → s.replies ≡ base → Serving p base s
    answered :
        (x : SentReply)
        → s.m_cur_req ≡ none
        → s.reqs p ≡ none
        → s.replies ≡ x ∷ base
        → x.to ≡ p
        → Serving p base s

  reply_done :
      (p code : ℕ) (text : Option (List ℕ)) (base : List SentReply) (s : Svr B) (r : Req B)
      → s.reqs p ≡ some r
      → s.replies ≡ base
      → Safe (Serving p base) (reply p code text s >>= λ s'. ok (record s' { m_cur_req = none }))
  unfolding reply deref_req
  reply_done p code text base s r e f =
      let x : SentReply = record { to = p; code = code; text = text } in
      let t : Svr B = record s {
        m_cur_req = none;
        reqs = set_req s.reqs p none;
        replies = x ∷ s.replies;
      } in
      safe t (ground (arith, e)) (answered x refl (set_req-same s.reqs p none) (ap (◌∷◌ x) f) refl)

  -- Send answers the current request, or does nothing.
  pub send-Serving :
      (data_str : List ℕ) (code : ℕ) (has_buf : Bool) (p : ℕ) (base : List SentReply) (s : Svr B)
      → Serving p base s
      → Safe (Serving p base) (send data_str code has_buf s)
  unfolding send
  send-Serving data_str code has_buf p base s (answered x c n e t) =
      safe s (ground (arith, c)) (answered x c n e t)
  send-Serving data_str code has_buf p base s (pending r c l e) =
      elim (Bool-cases (code == http_ok)) [
        | inl k ↦ elim (Bool-cases has_buf) [
          | inl h ↦
              let run : send data_str code has_buf s ≡ (
                  reply p code (some (c_str data_str)) s >>= λ s'.
                  ok (record s' { m_cur_req = none })) =
                ground (arith, c, k, h) in
              rw run (reply_done p code (some (c_str data_str)) base s r l e)
          | inr h ↦ safe s (ground (arith, c, k, h)) (pending r c l e)
        ]
        | inr k ↦
            let run : send data_str code has_buf s
                ≡ (reply p code none s >>= λ s'. ok (record s' { m_cur_req = none })) =
              ground (arith, c, k) in
            rw run (reply_done p code none base s r l e)
      ]

  -- The body of the current request.
  get_data_pending :
      (data_str : List ℕ) (p : ℕ) (r : Req B) (s : Svr B)
      → s.m_cur_req ≡ some p
      → s.reqs p ≡ some r
      → (b : B.Buf) × (get_data data_str s
          ≡ ok (
            B.contents r.body,
            record s { reqs = set_req s.reqs p (some (record r { body = b })) },
          ))
        × (B.contents b ≡ [])
  unfolding get_data deref_req
  get_data_pending data_str p r s c l =
      let (b, run, empty) =
        drain_while_length_lem B (B.get_length r.body + 1) 128 r.body [] (omega arith)
          (omega (arith, B.get_length_lem r.body)) in
      (b, rw (c, l) (rw run refl), empty)

  pub get_data-Serving :
      (data_str : List ℕ) (p : ℕ) (base : List SentReply) (s : Svr B)
      → Serving p base s
      → Safe (λ d. Serving p base d.1) (get_data data_str s)
  unfolding get_data
  get_data-Serving data_str p base s (answered x c n e t) =
      safe (data_str, s) (ground (arith, c)) (answered x c n e t)
  get_data-Serving data_str p base s (pending r c l e) =
      let (b, run, empty) = get_data_pending data_str p r s c l in
      safe (B.contents r.body, record s { reqs = set_req s.reqs p (some (record r { body = b })) })
        run
        (pending (record r { body = b }) c (set_req-same s.reqs p (some (record r { body = b }))) e)

  -- GetData on a current request gives the whole body, whatever the string held, and a second call
  -- gives an empty one: the body is read out of libevent's buffer.
  get_data_twice :
      (data_str other : List ℕ) (p : ℕ) (r : Req B) (s : Svr B)
      → s.m_cur_req ≡ some p
      → s.reqs p ≡ some r
      → (s1 : Svr B) × (s2 : Svr B) × (get_data data_str s ≡ ok (B.contents r.body, s1))
        × (get_data other s1 ≡ ok ([], s2))
  get_data_twice data_str other p r s c l =
      let (b, run, empty) = get_data_pending data_str p r s c l in
      let r1 = record r { body = b } in
      let s1 = record s { reqs = set_req s.reqs p (some r1) } in
      let (b2, run2, empty2) = get_data_pending other p r1 s1 c (set_req-same s.reqs p (some r1)) in
      let s2 = record s1 { reqs = set_req s1.reqs p (some (record r1 { body = b2 })) } in
      (s1, s2, run, run2 ∙ ap (λ xs. ok (xs, s2)) empty)

  -- What is not answered when RevRequest is over is answered with an error.
  close_answered :
      (p : ℕ) (base : List SentReply) (t : Svr B)
      → Serving p base t
      → (s' : Svr B) × (x : SentReply) × (close_request t ≡ ok s')
        × (s'.m_cur_req ≡ none)
        × (s'.reqs p ≡ none)
        × (s'.replies ≡ x ∷ base)
        × (x.to ≡ p)
  unfolding close_request reply deref_req
  close_answered p base t (answered x c n f g) = (t, x, ground (arith, c), c, n, f, g)
  close_answered p base t (pending r c l f) =
      let x : SentReply = record { to = p; code = http_servunavail; text = none } in
      (
        record t { m_cur_req = none; reqs = set_req t.reqs p none; replies = x ∷ t.replies },
        x,
        rw (c, l) refl,
        refl,
        set_req-same t.reqs p none,
        ap (◌∷◌ x) f,
        refl,
      )

  -- A header is set only on the request that waits.
  pub add_header_pending :
      (name value : List ℕ) (p : ℕ) (base : List SentReply) (r : Req B) (s : Svr B)
      → s.m_cur_req ≡ some p
      → s.reqs p ≡ some r
      → s.replies ≡ base
      → Safe (Serving p base) (add_header name value s)
  unfolding add_header deref_req
  add_header_pending name value p base r s c l e =
      let r' : Req B = record r { output_headers = (c_str name, c_str value) ∷ r.output_headers } in
      safe (record s { reqs = set_req s.reqs p (some r') }) (rw (c, l) refl)
        (pending r' c (set_req-same s.reqs p (some r')) e)

  -- What a class promises of its RevRequest: called while a request is current and waits, it returns,
  -- and the request still waits then, or was answered once and is gone.
  abbrev pub IsAnswering : (Svr B → Outcome (Svr B)) → Type 0
  IsAnswering rev_request =
      (t : Svr B) (p : ℕ) (r : Req B)
      → t.m_cur_req ≡ some p
      → t.reqs p ≡ some r
      → Safe (Serving p t.replies) (rev_request t)

  -- A request that comes while none is current is answered exactly once, and is then not current any
  -- more, if RevRequest keeps its promise.
  pub rev_request_cb_once :
      (rev_request : Svr B → Outcome (Svr B)) (p : ℕ) (r : Req B) (s : Svr B)
      → IsAnswering rev_request
      → s.m_cur_req ≡ none
      → s.reqs p ≡ some r
      → (s' : Svr B) × (x : SentReply) × (rev_request_cb rev_request p s ≡ ok s')
        × (s'.m_cur_req ≡ none)
        × (s'.reqs p ≡ none)
        × (s'.replies ≡ x ∷ s.replies)
        × (x.to ≡ p)
  unfolding rev_request_cb
  rev_request_cb_once rev_request p r s h c l =
      elim (h (record s { m_cur_req = some p }) p r refl l) [
        | safe t f v ↦
            let (s', x, run, cur, gone, sent, to_lem) = close_answered p s.replies t v in
            (s', x, rw c (rw f run), cur, gone, sent, to_lem)
      ]

  -- A server whose socket could not be bound by Init refuses every Init from there on.
  init_bind_fail :
      (h port port' : ℕ) (ip ip' : Option (List ℕ)) (new_evhttp : Option ℕ) (binds : Bool)
      (s : Svr B)
      → s.m_evhttp ≡ none
      → (s' : Svr B) × (init (some h) false ip port s ≡ (s', false))
        × (init new_evhttp binds ip' port' s' ≡ (s', false))
  unfolding init
  init_bind_fail h port port' ip ip' new_evhttp binds s e =
      (record s { m_evhttp = some h }, rw e refl, refl)
