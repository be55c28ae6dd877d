-- ===== src/Http/Client/Life.antt =====
-- The life of a BaseHttpClient: requests, their answers, and what is left after each.
use libevent_cpp.Prelude.{
  ℕ, ◌+◌, ◌/◌, ◌≤◌, ◌<◌, ◌≡◌, refl, inl, inr, true, false, ◌&&◌, ◌||◌, Option, none, some, List, [],
  ◌∷◌, ◌++◌, arith, ◌==◌, leb, ltb, if◌then◌else◌, length, length-take, length-append, take_all,
  Bool-cases,
}
use libevent_cpp.Prelude.Outcome.{ok, ◌>>=◌}
use libevent_cpp.Http.{Uri, Evbuffer, c_str}
use libevent_cpp.Http.Drain.{drain_while_read_lem}
use libevent_cpp.Http.Client.{
  UserCall, respond, respond_error, connect_fail, Made, HttpClient, Answer, free_client,
  request_line, content, launch, look_up, port_or_80, request, Response, remote_read_callback,
}

-- A request line is at most 254 characters long, whatever the url.
length-request_line :
    (path : List ℕ) (query : Option (List ℕ)) → length (request_line path query) ≤ 254
unfolding request_line
length-request_line path none =
    omega (arith, length-take 254 (if length path == 0 then 47 ∷ [] else path))
length-request_line path (some q) =
    omega (arith, length-take 254 ((if length path == 0 then 47 ∷ [] else path) ++ 63 ∷ q))

-- A path that is not empty and a query that fit together in 253 characters are sent whole, with the
-- question mark between them.
request_line_whole :
    (path q : List ℕ)
    → 0 < length path
    → length path + length q ≤ 253
    → request_line path (some q) ≡ path ++ 63 ∷ q
unfolding request_line
request_line_whole path q p h =
    let e : (length path == 0) ≡ false = ground arith in
    rw e (take_all 254 (path ++ 63 ∷ q) (omega (arith, length-append path (63 ∷ q))))

-- Free to make a request.
pub record IsIdle (p : HttpClient) : Type 0 where
  pub no_con : p.m_con ≡ none
  pub no_dnsbase : p.m_dnsbase ≡ none
  pub no_req : p.m_is_req ≡ false

-- What the user is told of a response.
abbrev pub told : (B : Evbuffer) → Response B → UserCall
told B r =
    if r.response_code == 0
    then connect_fail
    else if leb 400 r.response_code && ltb r.response_code 600
    then respond_error r.response_code (c_str r.response_code_line)
    else respond (c_str (B.contents r.input_buffer))

module _ (B : Evbuffer) where
  is_error : (n : ℕ) → (n / 100 == 4 || n / 100 == 5) ≡ (leb 400 n && ltb n 600)
  is_error n = ground arith

  -- Whatever the response, the client makes one call to the user: ConnectFail at code 0,
  -- RespondError from 400 to 599, and else Respond with the whole body up to its first zero byte;
  -- and it is then free to make a request again.
  pub remote_read_callback-some :
      (r : Response B) (p : HttpClient)
      → (p' : HttpClient) × (remote_read_callback B (some r) p ≡ ok p')
        × IsIdle p'
        × (p'.calls ≡ told B r ∷ p.calls)
        × (p'.made ≡ p.made)
  unfolding remote_read_callback free_client
  remote_read_callback-some r p =
      let n = r.response_code in
      let q = record p {
        m_dnsbase = none;
        m_con = none;
        m_is_req = false;
        calls = told B r ∷ p.calls;
      } in
      let (b, run, empty) =
        drain_while_read_lem B (B.get_length r.input_buffer + 1) 1000 r.input_buffer []
          (omega arith) (omega (arith, B.get_length_lem r.input_buffer)) in
      (
        q,
        elim (Bool-cases (n == 0)) [
          | inl z ↦ rw z refl
          | inr z ↦ elim (Bool-cases (leb 400 n && ltb n 600)) [
            | inl e ↦ rw (z, is_error n, e) refl
            | inr e ↦ rw (z, is_error n, e) (rw run refl)
          ]
        ],
        record { no_con = refl; no_dnsbase = refl; no_req = refl },
        refl,
        refl,
      )

  -- libevent calls back with a null request when the connection fails or times out. The client that
  -- waits then tells nobody, and refuses every request from there on.
  pub remote_read_callback-none :
      (a : Answer) (url : Option (List ℕ)) (cmd_type : ℕ) (post_data : Option (List ℕ)) (ot_sec : ℕ)
      (p : HttpClient)
      → p.m_is_req ≡ true
      → (remote_read_callback B none p >>= λ q. request a url cmd_type post_data ot_sec q)
        ≡ ok (p, false)
  unfolding remote_read_callback request
  remote_read_callback-none a url cmd_type post_data ot_sec p h = rw h refl

-- A client that is idle makes the request that it is asked for, if the url has a host and libevent
-- gives its objects: to the host, the port of the url or 80, with the path and query.
pub request_idle :
    (a : Answer) (url host path : List ℕ) (u : Uri) (cmd_type : ℕ) (post_data : Option (List ℕ))
    (ot_sec d c : ℕ) (p : HttpClient)
    → IsIdle p
    → a.uri_parse url ≡ some u
    → u.host ≡ some host
    → u.path ≡ some path
    → a.new_dnsbase ≡ some d
    → a.new_con ≡ some c
    → a.new_req ≡ true
    → (p' : HttpClient) × (x : Made) × (request a (some url) cmd_type post_data ot_sec p
        ≡ ok (p', true))
      × (p'.m_is_req ≡ true)
      × (p'.made ≡ x ∷ p.made)
      × (x.to_host ≡ host)
      × (x.to_port ≡ port_or_80 u.port)
      × (x.request_uri ≡ request_line path u.query)
unfolding request look_up launch
request_idle a url host path u cmd_type post_data ot_sec d c p v h1 h2 h3 h4 h5 h6 = (
  record p {
    m_dnsbase = some d;
    m_con = some c;
    m_is_req = true;
    made =
        record {
          to_host = host;
          to_port = port_or_80 u.port;
          cmd_type = cmd_type;
          request_uri = request_line path u.query;
          timeout = ot_sec;
          post = content post_data;
        }
        ∷ p.made;
  },
  record {
    to_host = host;
    to_port = port_or_80 u.port;
    cmd_type = cmd_type;
    request_uri = request_line path u.query;
    timeout = ot_sec;
    post = content post_data;
  },
  ground (arith, v.no_req, v.no_con, v.no_dnsbase, h1, h2, h3, h4, h5, h6),
  refl,
  refl,
  refl,
  refl,
  refl,
)
