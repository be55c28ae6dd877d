-- ===== src/Examples/Web.antt =====
-- Http requests, taken and made.
use libevent_cpp.Prelude.{◌+◌, ◌≡◌, refl, true, none, some, List, [], ◌∷◌, length, map}
use libevent_cpp.Prelude.Int.{pos, negsuc}
use libevent_cpp.Prelude.Outcome.{Outcome, ok, safe, Safe->>=, ◌>>=◌}
use libevent_cpp.Http.{Uri}
use libevent_cpp.Http.Client.{
  Made, HttpClient, new_http_client, Answer, request_line, request, look_up, launch, content,
  Response, remote_read_callback,
}
use libevent_cpp.Http.Client.Life.{IsIdle, told, remote_read_callback-some}
use libevent_cpp.Http.Client.Accounts.{here, asked, outstanding, Reach-outstanding}
use libevent_cpp.Http.Svr.{Req, SentReply, Svr, add_header, get_data, send}
use libevent_cpp.Http.Svr.Reply.{
  pending, IsAnswering, add_header_pending, send-Serving, get_data-Serving,
}
use libevent_cpp.Http.Svr.History.{Visit, visits, visits_answered}
use libevent_cpp.Examples.Server.{plain}

abbrev uri : Uri
uri = record {
  host = some (97 ∷ []);
  port = negsuc 0;
  path = some (47 ∷ []);
  query = some (113 ∷ []);
}

abbrev gives : Answer
gives = record {
  uri_parse = λ url. some uri;
  new_dnsbase = some 1;
  new_con = some 2;
  new_req = true;
}

abbrev found : Response plain
found = record {
  response_code = 200;
  response_code_line = 79 ∷ 75 ∷ [];
  input_buffer = 104 ∷ 105 ∷ [];
}

abbrev made_one : Made
made_one = record {
  to_host = 97 ∷ [];
  to_port = pos 80;
  cmd_type = 1;
  request_uri = 47 ∷ 63 ∷ 113 ∷ [];
  timeout = 5;
  post = none;
}

abbrev waiting_client : HttpClient
waiting_client = record {
  m_dnsbase = some 1;
  m_con = some 2;
  m_is_req = true;
  made = made_one ∷ [];
  calls = [];
}

remote_read_callback-some_example :
    (p : HttpClient) × (remote_read_callback plain (some found) waiting_client ≡ ok p)
    × IsIdle p
    × (p.calls ≡ told plain found ∷ [])
    × (p.made ≡ made_one ∷ [])
remote_read_callback-some_example = remote_read_callback-some plain found waiting_client

asks : request gives (some (104 ∷ [])) 1 none 5 new_http_client ≡ ok (waiting_client, true)
unfolding request look_up launch content request_line
asks = refl

Reach-outstanding_example :
    length waiting_client.made ≡ length waiting_client.calls + outstanding waiting_client.m_is_req
Reach-outstanding_example =
    Reach-outstanding plain waiting_client
      (asked here gives (some (104 ∷ [])) 1 none 5 waiting_client true asks)

abbrev post : Req plain
post = record { command = 2; uri = some (47 ∷ []); body = 1 ∷ 2 ∷ []; output_headers = [] }

abbrev open_svr : Svr plain
open_svr = record {
  m_evhttp = some 1;
  m_ip = [];
  m_port = 80;
  m_cur_req = none;
  reqs = λ p. some post;
  replies = [];
}

-- A class that sets a header, reads the body, and answers with it, twice.
abbrev echo : Svr plain → Outcome (Svr plain)
echo s = add_header (65 ∷ []) (66 ∷ []) s >>= λ s1.
    get_data [] s1 >>= λ d. send d.0 200 true d.1 >>= λ s'. send d.0 200 true s'

echo-IsAnswering : IsAnswering echo
echo-IsAnswering t p r c l =
    Safe->>= (add_header (65 ∷ []) (66 ∷ []) t) _
      (add_header_pending (65 ∷ []) (66 ∷ []) p t.replies r t c l refl)
      λ s1 u. Safe->>= (get_data [] s1) _ (get_data-Serving [] p t.replies s1 u) λ d w.
        Safe->>= (send d.0 200 true d.1) _ (send-Serving d.0 200 true p t.replies d.1 w)
          λ s' x. send-Serving d.0 200 true p t.replies s' x

-- One that answers nothing.
abbrev idle : Svr plain → Outcome (Svr plain)
idle s = ok s

idle-IsAnswering : IsAnswering idle
idle-IsAnswering t p r c l = safe t refl (pending r c l refl)

abbrev three : List (Visit plain)
three =
    record { address = 9; request = post; rev_request = echo }
    ∷ record { address = 9; request = post; rev_request = idle }
    ∷ record { address = 4; request = post; rev_request = echo }
    ∷ []

visits_answered_example :
    (s : Svr plain) × (visits plain three open_svr ≡ ok s)
    × (s.m_cur_req ≡ none)
    × (map SentReply.to s.replies ≡ 4 ∷ 9 ∷ 9 ∷ [])
visits_answered_example =
    visits_answered plain three open_svr
      (echo-IsAnswering, (idle-IsAnswering, (echo-IsAnswering, tt))) refl
