-- ===== src/Con/Alone.antt =====
-- src/connector.cc, where the object has the only bufferevent that there is: none is left behind.
pub mod Calls
use libevent_cpp.Prelude.{
  ℕ, ◌≡◌, refl, ap, sym, ◌∙◌, ◌⊎◌, inl, inr, Bool, true, false, Option, none, some, List, arith,
  ltb, ◌==◌, if◌then◌else◌, take, Bool-cases, Option-cases,
}
use libevent_cpp.Prelude.Int.{is_zero}
use libevent_cpp.Prelude.Outcome.{Outcome, ok, Safe, safe, Safe->>=, ◌>>=◌}
use libevent_cpp.Env.{Env}
use libevent_cpp.Con.{
  Con, Handlers, MsgPack, max_msg_data_len, deref, put, reset, free, disconnect, update,
  bufferevent_free, conn_event_callback,
}
use libevent_cpp.Con.Send.{
  bufferevent_write, write_frame, limit_backlog, check_backlog, checked, send_data_pack,
}
use libevent_cpp.Con.Valid.{
  Anything, IsValid, idle, attached, At, At-IsValid, put-At, still_there_lem,
}
use libevent_cpp.Con.Methods.{is_connected_event}

pub update_other :
    {A : Type 0} (f : ℕ → Option A) (p q : ℕ) (v : Option A)
    → (p == q) ≡ false
    → update f p v q ≡ f q
update_other f p q v n = rw n refl

same_number : (p q : ℕ) → (p == q) ≡ true → p ≡ q
same_number p q t = ground arith

module _ {E : Env} where
  -- No bufferevent is live but the object's.
  pub data IsAlone (c : Con E) : Type 0 where
    alone : ((q : ℕ) → (c.bevs q ≡ none) ⊎ (c.m_buf_e ≡ some q)) → IsAlone c

  -- A connection object in one of its phases, and alone.
  pub record IsTidy (c : Con E) : Type 0 where
    pub valid : IsValid Anything c
    pub only : IsAlone c

  -- Attached through this bufferevent, and alone.
  pub record IsTidyAt (bev : ℕ) (c : Con E) : Type 0 where
    pub at : At Anything bev c
    pub only : IsAlone c

  pub IsTidyAt-IsTidy : (bev : ℕ) (c : Con E) → IsTidyAt bev c → IsTidy c
  IsTidyAt-IsTidy bev c v = record { valid = At-IsValid Anything bev c v.at; only = v.only }

  pub put-IsTidyAt : (bev : ℕ) (b : E.Bev) (c : Con E) → IsTidyAt bev c → IsTidyAt bev (put bev b c)
  unfolding put
  put-IsTidyAt bev b c v = elim v.only [
    | alone f ↦ record {
      at = put-At Anything bev b c v.at;
      only = alone λ q. elim (Bool-cases (bev == q)) [
        | inl t ↦ inr (v.at.1 ∙ ap some (same_number bev q t))
        | inr n ↦ elim (f q) [
          | inl h ↦ inl (update_other c.bevs bev q (some b) n ∙ h)
          | inr h ↦ inr h
        ]
      ];
    }
  ]

  -- After Free no bufferevent is live.
  pub free_empties :
      (c : Con E)
      → IsTidy c
      → Safe (λ d. IsTidy d × (d.m_buf_e ≡ none) × ((q : ℕ) → d.bevs q ≡ none)) (free c)
  unfolding free reset bufferevent_free
  free_empties c v = elim v.valid [
    | idle a f k l alive q ↦
        let gone = λ (q : ℕ). none_left c a v.only q in
        safe (reset c) (rw a refl) (
          record { valid = idle refl refl refl refl alive tt; only = alone λ q. inl (gone q) },
          refl,
          gone,
        )
    | attached bev b a e f alive q ↦
        let gone = λ (q : ℕ). freed c bev a v.only q in
        safe
          (reset (record c { bevs = update c.bevs bev none; dying = update c.dying bev (some b) }))
          (rw (a, e) refl)
          (
            record { valid = idle refl refl refl refl alive tt; only = alone λ q. inl (gone q) },
            refl,
            gone,
          )
  ]
    where
      none_left : (c : Con E) → c.m_buf_e ≡ none → IsAlone c → (q : ℕ) → c.bevs q ≡ none
      none_left c a (alone f) q = elim (f q) [ inl h ↦ h | inr h ↦ cc ]

      freed :
          (c : Con E) (bev : ℕ)
          → c.m_buf_e ≡ some bev
          → IsAlone c
          → (q : ℕ) → update c.bevs bev none q ≡ none
      freed c bev a (alone f) q = elim (Bool-cases (bev == q)) [
        | inl t ↦ rw t refl
        | inr n ↦ elim (f q) [
          | inl h ↦ rw n h
          | inr h ↦
              let same : some bev ≡ some q = sym a ∙ h in
              let same' : bev ≡ q = cc same in ground arith
        ]
      ]
