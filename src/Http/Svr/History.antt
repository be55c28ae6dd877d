-- ===== src/Http/Svr/History.antt =====
-- A BaseHttpSvr over a whole history of requests, each with the code that its class runs for it.
use mathlib.Core.List.{reverse_aux}
use libevent_cpp.Prelude.{ℕ, ◌≡◌, refl, none, some, List, [], ◌∷◌, map, ap, ◌∙◌}
use libevent_cpp.Prelude.Outcome.{Outcome, ok, ◌>>=◌}
use libevent_cpp.Http.{Evbuffer}
use libevent_cpp.Http.Svr.{Req, SentReply, Svr, set_req, rev_request_cb}
use libevent_cpp.Http.Svr.Reply.{set_req-same, IsAnswering, rev_request_cb_once}

module _ (B : Evbuffer) where
  -- A request at its address, and RevRequest.
  pub record Visit : Type 0 where
    pub address : ℕ
    pub request : Req B
    pub rev_request : Svr B → Outcome (Svr B)

  -- libevent has read the request, and calls back.
  abbrev pub visit : Visit → Svr B → Outcome (Svr B)
  visit v s =
      rev_request_cb v.rev_request v.address
        (record s { reqs = set_req s.reqs v.address (some v.request) })

  abbrev pub visits : List Visit → Svr B → Outcome (Svr B)
  visits [] s = ok s
  visits (v ∷ vs) s = visit v s >>= λ s'. visits vs s'

  abbrev pub AllAnswering : List Visit → Type 0
  AllAnswering [] = Unit {0}
  AllAnswering (v ∷ vs) = IsAnswering v.rev_request × AllAnswering vs

  -- Requests come one after the other, each with a RevRequest that returns with it waiting or answered
  -- once, to a server with no current request. Then every one of them is answered exactly once, in the
  -- order in which they came, none is turned away, none is current at the end, and nothing faults.
  pub visits_answered :
      (vs : List Visit) (s : Svr B)
      → AllAnswering vs
      → s.m_cur_req ≡ none
      → (s' : Svr B) × (visits vs s ≡ ok s')
        × (s'.m_cur_req ≡ none)
        × (map SentReply.to s'.replies
            ≡ reverse_aux (map Visit.address vs) (map SentReply.to s.replies))
  visits_answered [] s h c = (s, refl, c, refl)
  visits_answered (v ∷ vs) s h c =
      let s0 : Svr B = record s { reqs = set_req s.reqs v.address (some v.request) } in
      let (s1, x, run, cur, gone, sent, sent_to) =
        rev_request_cb_once v.rev_request v.address v.request s0 h.0 c
          (set_req-same s.reqs v.address (some v.request)) in
      let (s2, run2, cur2, all) = visits_answered vs s1 h.1 cur in
      (
        s2,
        rw run run2,
        cur2,
        all
            ∙ ap (reverse_aux (map Visit.address vs))
                (ap (map SentReply.to) sent ∙ ap (λ a. a ∷ map SentReply.to s.replies) sent_to),
      )
