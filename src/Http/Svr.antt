-- ===== src/Http/Svr.antt =====
-- src/http.cc and include/http.h: BaseHttpSvr. A request is libevent's until it is given to the
-- callback, and again from the reply on; `reqs` holds those that are the server's, by address. What
-- was answered, and to which, is kept in `replies`, the last one first.
pub mod Reply
pub mod History
use libevent_cpp.Prelude.{
  ℕ, ◌+◌, ◌==◌, Bool, true, false, Option, none, some, List, [], ◌∷◌, if◌then◌else◌,
}
use libevent_cpp.Prelude.Outcome.{Outcome, ok, fault, Fault, ◌>>=◌}
use libevent_cpp.Http.{Uri, Evbuffer, c_str}
use libevent_cpp.Http.Drain.{drain_while_length}

abbrev pub http_ok : ℕ
http_ok = 200

abbrev pub http_servunavail : ℕ
http_servunavail = 503

abbrev pub evhttp_req_get : ℕ
evhttp_req_get = 1

-- "0.0.0.0"
abbrev pub any_ip : List ℕ
any_ip = 48 ∷ 46 ∷ 48 ∷ 46 ∷ 48 ∷ 46 ∷ 48 ∷ []

-- struct evhttp_request, while it waits for its reply.
pub record Req (B : Evbuffer) : Type 0 where
  pub command : ℕ
  pub uri : Option (List ℕ)
  pub body : B.Buf
  pub output_headers : List (List ℕ × List ℕ)

-- evhttp_send_reply with the text of its buffer, or evhttp_send_error with none.
pub record SentReply : Type 0 where
  pub to : ℕ
  pub code : ℕ
  pub text : Option (List ℕ)

pub record Svr (B : Evbuffer) : Type 0 where
  pub m_evhttp : Option ℕ
  pub m_ip : List ℕ
  pub m_port : ℕ
  pub m_cur_req : Option ℕ
  pub reqs : ℕ → Option (Req B)
  pub replies : List SentReply

abbrev pub set_req : {A : Type 0} → (ℕ → Option A) → ℕ → Option A → ℕ → Option A
set_req f p v q = if p == q then v else f q

-- What GetUriQuery and GetPath make of a parsed uri.
query_of : Option Uri → List ℕ
query_of none = []
query_of (some u) = elim u.query [ none ↦ [] | some q ↦ q ]

-- A std::string made of a null pointer throws std::logic_error. "/" is 47.
path_of : Option Uri → Outcome (List ℕ)
path_of none = fault Fault.uncaught_exception
path_of (some u) = elim u.path [ none ↦ ok (47 ∷ []) | some path ↦ ok path ]

module _ {B : Evbuffer} where
  -- evhttp_new gives `new_evhttp`, and evhttp_bind_socket returns 0 if `binds`.
  unfoldable pub init : Option ℕ → Bool → Option (List ℕ) → ℕ → Svr B → Svr B × Bool
  init new_evhttp binds ip port s = elim s.m_evhttp [
    | some old ↦ (s, false)
    | none ↦
        let s1 = record s { m_evhttp = new_evhttp } in
        elim new_evhttp [
          | none ↦ (s1, false)
          | some h ↦
              if binds
              then (
                record s1 { m_ip = elim ip [ none ↦ any_ip | some i ↦ i ]; m_port = port },
                true,
              )
              else (s1, false)
        ]
  ]

  -- A read through a request.
  unfoldable pub deref_req : ℕ → Svr B → Outcome (Req B)
  deref_req p s = elim (s.reqs p) [ none ↦ fault Fault.use_after_free | some r ↦ ok r ]

  unfoldable get_method : Svr B → Outcome ℕ
  unfolding deref_req
  get_method s = elim s.m_cur_req [
    | none ↦ ok evhttp_req_get
    | some p ↦ deref_req p s >>= λ r. ok r.command
  ]

  unfoldable get_uri : Svr B → Outcome (Option (List ℕ))
  unfolding deref_req
  get_uri s = elim s.m_cur_req [ none ↦ ok none | some p ↦ deref_req p s >>= λ r. ok r.uri ]

  -- `parse` is evhttp_uri_parse.
  unfoldable get_uri_query : (List ℕ → Option Uri) → Svr B → Outcome (List ℕ)
  unfolding get_uri query_of
  get_uri_query parse s =
      get_uri s >>= λ o. elim o [ none ↦ ok [] | some uri ↦ ok (query_of (parse uri)) ]

  unfoldable get_path : (List ℕ → Option Uri) → Svr B → Outcome (List ℕ)
  unfolding get_uri path_of
  get_path parse s = get_uri s >>= λ o. elim o [
    | none ↦ fault Fault.uncaught_exception
    | some uri ↦ path_of (parse uri)
  ]

  -- `data` is what the caller's string held; pieces of 128 bytes.
  unfoldable pub get_data : List ℕ → Svr B → Outcome (List ℕ × Svr B)
  unfolding deref_req
  get_data data_str s = elim s.m_cur_req [
    | none ↦ ok (data_str, s)
    | some p ↦ deref_req p s >>= λ r.
        drain_while_length B (B.get_length r.body + 1) 128 r.body [] >>= λ d.
        ok (d.0, record s { reqs = set_req s.reqs p (some (record r { body = d.1 })) })
  ]

  -- evhttp_request_get_output_headers reads through the request with no test for null.
  unfoldable pub add_header : List ℕ → List ℕ → Svr B → Outcome (Svr B)
  unfolding deref_req
  add_header name value s = elim s.m_cur_req [
    | none ↦ fault Fault.null_deref
    | some p ↦ deref_req p s >>= λ r. ok (record s {
      reqs =
          set_req s.reqs p
            (some (record r { output_headers = (c_str name, c_str value) ∷ r.output_headers }));
    })
  ]

  -- What libevent does with a reply: the request is no longer the server's.
  reply : ℕ → ℕ → Option (List ℕ) → Svr B → Outcome (Svr B)
  unfolding deref_req
  reply p code text s = deref_req p s >>= λ r. ok (record s {
    reqs = set_req s.reqs p none;
    replies = record { to = p; code = code; text = text } ∷ s.replies;
  })

  -- `has_buf`: evbuffer_new gives a buffer.
  unfoldable pub send : List ℕ → ℕ → Bool → Svr B → Outcome (Svr B)
  unfolding reply
  send data_str code has_buf s = elim s.m_cur_req [
    | none ↦ ok s
    | some p ↦
        if code == http_ok
        then (if has_buf
            then (reply p code (some (c_str data_str)) s >>= λ s'.
                ok (record s' { m_cur_req = none }))
            else ok s)
        else (reply p code none s >>= λ s'. ok (record s' { m_cur_req = none }))
  ]

  -- After RevRequest.
  unfoldable pub close_request : Svr B → Outcome (Svr B)
  unfolding reply
  close_request s = elim s.m_cur_req [
    | none ↦ ok s
    | some p ↦ reply p http_servunavail none s >>= λ s'. ok (record s' { m_cur_req = none })
  ]

  unfoldable pub rev_request_cb : (Svr B → Outcome (Svr B)) → ℕ → Svr B → Outcome (Svr B)
  unfolding close_request
  rev_request_cb rev_request req s = elim s.m_cur_req [
    | some p ↦ ok s
    | none ↦ rev_request (record s { m_cur_req = some req }) >>= close_request
  ]

  -- ~BaseHttpSvr.
  unfoldable destroy_svr : Svr B → Svr B
  destroy_svr s = record s { m_evhttp = none }
