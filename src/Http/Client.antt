-- ===== src/Http/Client.antt =====
-- src/http.cc and include/http.h: BaseHttpClient. The virtual methods come last in the callback, so
-- `calls` keeps which of them were called, the last one first, and `made` the requests that were
-- handed to libevent. What libevent gives is in `Answer`.
pub mod Life
pub mod Accounts
use libevent_cpp.Prelude.{
  ℕ, ◌+◌, ◌/◌, ◌==◌, Bool, true, false, ◌||◌, Option, none, some, List, [], ◌∷◌, ◌++◌,
  if◌then◌else◌, length, take,
}
use libevent_cpp.Prelude.Int.{ℤ, pos, is_neg}
use libevent_cpp.Prelude.Outcome.{Outcome, ok, fault, Fault, ◌>>=◌}
use libevent_cpp.Http.{Uri, Evbuffer, c_str}
use libevent_cpp.Http.Drain.{drain_while_read}

pub data UserCall : Type 0 where
  respond : List ℕ → UserCall
  respond_error : ℕ → List ℕ → UserCall
  connect_fail : UserCall

-- A request as evhttp_make_request gets it.
pub record Made : Type 0 where
  pub to_host : List ℕ
  pub to_port : ℤ
  pub cmd_type : ℕ
  pub request_uri : List ℕ
  pub timeout : ℕ
  -- The body, and the number that Content-Length spells.
  pub post : Option (List ℕ × ℕ)

pub record HttpClient : Type 0 where
  pub m_dnsbase : Option ℕ
  pub m_con : Option ℕ
  pub m_is_req : Bool
  pub made : List Made
  pub calls : List UserCall

-- What evhttp_uri_parse, evdns_base_new, evhttp_connection_base_new and evhttp_request_new give.
pub record Answer : Type 0 where
  pub uri_parse : List ℕ → Option Uri
  pub new_dnsbase : Option ℕ
  pub new_con : Option ℕ
  pub new_req : Bool

abbrev pub new_http_client : HttpClient
new_http_client = record { m_dnsbase = none; m_con = none; m_is_req = false; made = []; calls = [] }

unfoldable pub free_client : HttpClient → HttpClient
free_client p = record p { m_dnsbase = none; m_con = none; m_is_req = false }

-- ~BaseHttpClient.
unfoldable destroy_http_client : HttpClient → HttpClient
unfolding free_client
destroy_http_client p = free_client p

-- `snprintf(uri, 255, …)` keeps 254 characters and the zero; "/" is 47 and "?" is 63.
unfoldable pub request_line : List ℕ → Option (List ℕ) → List ℕ
request_line path query =
    let path' = if length path == 0 then 47 ∷ [] else path in
    elim query [ none ↦ take 254 path' | some q ↦ take 254 (path' ++ 63 ∷ q) ]

unfoldable pub content : Option (List ℕ) → Option (List ℕ × ℕ)
content none = none
content (some post_data) = some (post_data, length post_data)

-- From the creation of the dns base on.
unfoldable pub launch :
    Answer → List ℕ → ℤ → List ℕ → ℕ → Option (List ℕ) → ℕ → HttpClient → HttpClient × Bool
unfolding free_client content
launch a host port uri cmd_type post_data ot_sec p =
    let p1 = record p { m_dnsbase = a.new_dnsbase } in
    elim a.new_dnsbase [
      | none ↦ (free_client p1, false)
      | some d ↦
          let p2 = record p1 { m_con = a.new_con } in
          elim a.new_con [
            | none ↦ (free_client p2, false)
            | some c ↦
                if a.new_req
                then (
                  record p2 {
                    m_is_req = true;
                    made =
                        record {
                          to_host = host;
                          to_port = port;
                          cmd_type = cmd_type;
                          request_uri = uri;
                          timeout = ot_sec;
                          post = content post_data;
                        }
                        ∷ p.made;
                  },
                  true,
                )
                else (p2, false)
          ]
    ]

abbrev pub port_or_80 : ℤ → ℤ
port_or_80 port = if is_neg port then pos 80 else port

-- The parsed url is looked into; strlen reads through the path.
unfoldable pub look_up :
    Answer → Option Uri → ℕ → Option (List ℕ) → ℕ → HttpClient → Outcome (HttpClient × Bool)
unfolding request_line launch
look_up a none cmd_type post_data ot_sec p = ok (p, false)
look_up a (some u) cmd_type post_data ot_sec p = elim u.host [
  | none ↦ ok (p, false)
  | some host ↦ elim u.path [
    | none ↦ fault Fault.null_deref
    | some path ↦
        ok (
          launch a host (port_or_80 u.port) (request_line path u.query) cmd_type post_data ot_sec p)
  ]
]

unfoldable pub request :
    Answer → Option (List ℕ) → ℕ → Option (List ℕ) → ℕ → HttpClient → Outcome (HttpClient × Bool)
unfolding look_up
request a url cmd_type post_data ot_sec p = if p.m_is_req then ok (p, false) else (elim url [
  | none ↦ ok (p, false)
  | some u ↦ elim p.m_con [
    | some c ↦ ok (p, false)
    | none ↦ elim p.m_dnsbase [
      | some d ↦ ok (p, false)
      | none ↦ look_up a (a.uri_parse u) cmd_type post_data ot_sec p
    ]
  ]
])

-- The answer is whether an error is logged: the connection that closes is not the client's.
unfoldable connection_close_callback : ℕ → HttpClient → HttpClient × Bool
connection_close_callback connection p = elim p.m_con [
  | none ↦ (p, true)
  | some c ↦ (p, if c == connection then false else true)
]

-- struct evhttp_request, when the answer is there.
pub record Response (B : Evbuffer) : Type 0 where
  pub response_code : ℕ
  pub response_code_line : List ℕ
  pub input_buffer : B.Buf

module _ (B : Evbuffer) where
  -- The loop takes pieces of 1000 bytes; the bytes at hand bound their number.
  unfoldable pub remote_read_callback : Option (Response B) → HttpClient → Outcome HttpClient
  unfolding free_client c_str
  remote_read_callback none p = ok p
  remote_read_callback (some r) p =
      let start_num = r.response_code / 100 in
      if r.response_code == 0
      then ok (record (free_client p) { calls = connect_fail ∷ p.calls })
      else if start_num == 4 || start_num == 5
      then ok (record (free_client p) {
        calls = respond_error r.response_code (c_str r.response_code_line) ∷ p.calls;
      })
      else (drain_while_read B (B.get_length r.input_buffer + 1) 1000 r.input_buffer [] >>= λ d.
          ok (record (free_client p) { calls = respond (c_str d.0) ∷ p.calls }))
