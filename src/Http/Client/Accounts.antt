-- ===== src/Http/Client/Accounts.antt =====
-- How many requests a BaseHttpClient makes, and how often it calls the user.
use libevent_cpp.Prelude.{
  ℕ, ◌+◌, ◌≡◌, refl, ap, subst, inl, inr, Bool, true, false, Option, none, some, List, arith,
  length, Bool-cases, Option-cases,
}
use libevent_cpp.Prelude.Int.{ℤ}
use libevent_cpp.Prelude.Outcome.{Outcome, ok, fault, Fault}
use libevent_cpp.Http.{Uri, Evbuffer}
use libevent_cpp.Http.Client.{
  HttpClient, new_http_client, Answer, free_client, request_line, launch, look_up, port_or_80,
  request, Response, remote_read_callback,
}
use libevent_cpp.Http.Client.Life.{remote_read_callback-some}

-- What happens to a client: calls of Request, and the one answer that libevent gives to each
-- request that was made.
pub data Reach (B : Evbuffer) (p : HttpClient) : HttpClient → Type 0 where
  here : Reach B p p
  asked :
      {q : HttpClient}
      → Reach B p q
      → (a : Answer) (url : Option (List ℕ)) (cmd_type : ℕ) (post_data : Option (List ℕ))
        (ot_sec : ℕ) (q' : HttpClient) (done : Bool)
      → request a url cmd_type post_data ot_sec q ≡ ok (q', done)
      → Reach B p q'
  answered :
      {q : HttpClient}
      → Reach B p q
      → q.m_is_req ≡ true
      → (r : Response B) (q' : HttpClient) → remote_read_callback B (some r) q ≡ ok q'
      → Reach B p q'

abbrev pub outstanding : Bool → ℕ
outstanding true = 1
outstanding false = 0

abbrev Accounts : HttpClient → Type 0
Accounts p = length p.made ≡ length p.calls + outstanding p.m_is_req

launch-Accounts :
    (a : Answer) (host : List ℕ) (port : ℤ) (uri : List ℕ) (cmd_type : ℕ)
    (post_data : Option (List ℕ)) (ot_sec : ℕ) (p : HttpClient)
    → p.m_is_req ≡ false
    → Accounts p
    → Accounts (launch a host port uri cmd_type post_data ot_sec p).0
unfolding launch free_client
launch-Accounts a host port uri cmd_type post_data ot_sec p f v =
    elim (Option-cases a.new_dnsbase) [
      | inl e ↦ rw e (omega (arith, ap outstanding f))
      | inr (d, e) ↦ elim (Option-cases a.new_con) [
        | inl g ↦ rw (e, g) (omega (arith, ap outstanding f))
        | inr (c, g) ↦ elim (Bool-cases a.new_req) [
          | inl h ↦ rw (e, g, h) (omega (arith, ap outstanding f))
          | inr h ↦ rw (e, g, h) v
        ]
      ]
    ]

-- The call returns with `P`, or reads through a null pointer.
data Comes (P : HttpClient → Type 0) (r : Outcome (HttpClient × Bool)) : Type 0 where
  comes : (s : HttpClient × Bool) → r ≡ ok s → P s.0 → Comes P r
  faults : r ≡ fault Fault.null_deref → Comes P r

look_up-Accounts :
    (a : Answer) (o : Option Uri) (cmd_type : ℕ) (post_data : Option (List ℕ)) (ot_sec : ℕ)
    (p : HttpClient)
    → p.m_is_req ≡ false
    → Accounts p
    → Comes Accounts (look_up a o cmd_type post_data ot_sec p)
unfolding look_up
look_up-Accounts a none cmd_type post_data ot_sec p f v = comes (p, false) refl v
look_up-Accounts a (some u) cmd_type post_data ot_sec p f v = elim (Option-cases u.host) [
  | inl e ↦ rw e (comes (p, false) refl v)
  | inr (host, e) ↦ elim (Option-cases u.path) [
    | inl g ↦ rw (e, g) (faults refl)
    | inr (path, g) ↦
        let uri = request_line path u.query in
        rw (e, g)
          (comes (launch a host (port_or_80 u.port) uri cmd_type post_data ot_sec p) refl
            (launch-Accounts a host (port_or_80 u.port) uri cmd_type post_data ot_sec p f v))
  ]
]

request-Accounts :
    (a : Answer) (url : Option (List ℕ)) (cmd_type : ℕ) (post_data : Option (List ℕ)) (ot_sec : ℕ)
    (p : HttpClient)
    → Accounts p
    → Comes Accounts (request a url cmd_type post_data ot_sec p)
unfolding request
request-Accounts a url cmd_type post_data ot_sec p v = elim (Bool-cases p.m_is_req) [
  | inl t ↦ comes (p, false) (ground (arith, t)) v
  | inr f ↦ rw f (go url p.m_con p.m_dnsbase f)
]
  where
    go :
        (url : Option (List ℕ)) (c d : Option ℕ)
        → p.m_is_req ≡ false
        → Comes Accounts (elim url [
          | none ↦ ok (p, false)
          | some u ↦ elim c [
            | some c ↦ ok (p, false)
            | none ↦ elim d [
              | some d ↦ ok (p, false)
              | none ↦ look_up a (a.uri_parse u) cmd_type post_data ot_sec p
            ]
          ]
        ])
    go none c d f = comes (p, false) refl v
    go (some u) (some c) d f = comes (p, false) refl v
    go (some u) none (some d) f = comes (p, false) refl v
    go (some u) none none f = look_up-Accounts a (a.uri_parse u) cmd_type post_data ot_sec p f v

-- Over the whole life of a client, of requests and of one response to each that was made, the user
-- has been called once for each request that was made, but for the one that waits, if one does.
pub Reach-outstanding :
    (B : Evbuffer) (p : HttpClient)
    → Reach B new_http_client p
    → length p.made ≡ length p.calls + outstanding p.m_is_req
Reach-outstanding B p here = refl
Reach-outstanding B p (asked {q} run a url cmd_type post_data ot_sec p2 done e) =
    elim (request-Accounts a url cmd_type post_data ot_sec q (Reach-outstanding B q run)) [
      | comes s f v ↦ let same : s.0 ≡ p = cc in subst Accounts same v
      | faults f ↦ cc
    ]
Reach-outstanding B p (answered {q} run busy r p' e) =
    let (q', f, idle, told_lem, made_lem) = remote_read_callback-some B r q in
    let same : q' ≡ p = cc in
    subst Accounts same (
      omega (
        arith,
        Reach-outstanding B q run,
        ap outstanding busy,
        ap outstanding idle.no_req,
        ap length told_lem,
        ap length made_lem,
      ))
