-- ===== src/Stdin.antt =====
-- src/stdin.cc and include/stdin.h: the class Stdin, a bufferevent on descriptor 0. A callback is
-- known by a number, and `call` is what the callbacks do; `user` is what they keep. `bevs` is the
-- heap of bufferevents, and `dying` has those that were freed and that libevent's event loop has not
-- finalized yet.
use libevent_cpp.Prelude.{ℕ, Option, none, some, List, ◌==◌, if◌then◌else◌}
use libevent_cpp.Prelude.Int.{ℤ, to_int, to_size}
use libevent_cpp.Prelude.Outcome.{Outcome, ok, fault, Fault, ◌>>=◌}
use libevent_cpp.Env.{Env}

pub record Stdin (E : Env) : Type 0 where
  pub m_cb : Option ℕ
  pub m_buf_e : Option ℕ
  pub bevs : ℕ → Option (E.Bev)
  pub dying : ℕ → Option (E.Bev)
  pub user : E.User

abbrev pub set_bev : {A : Type 0} → (ℕ → Option A) → ℕ → Option A → ℕ → Option A
set_bev f p v q = if p == q then v else f q

module _ {E : Env} where
  -- bufferevent_socket_new gives an address and a bufferevent, or null.
  unfoldable init_stdin : Option ℕ → Option (ℕ × E.Bev) → Stdin E → Stdin E
  init_stdin none new_bev s = s
  init_stdin (some cb) new_bev s = elim s.m_buf_e [
    | some old ↦ s
    | none ↦ elim new_bev [
      | none ↦ s
      | some n ↦ record s {
        m_buf_e = some n.0;
        m_cb = some cb;
        bevs = set_bev s.bevs n.0 (some n.1);
      }
    ]
  ]

  unfoldable pub del : Stdin E → Stdin E
  del s = elim s.m_buf_e [
    | none ↦ record s { m_cb = none }
    | some bev ↦ record s {
      m_buf_e = none;
      m_cb = none;
      bevs = set_bev s.bevs bev none;
      dying = set_bev s.dying bev (s.bevs bev);
    }
  ]

  unfoldable pub deref_stdin : ℕ → Stdin E → Outcome (E.Bev)
  deref_stdin bev s = elim (s.bevs bev) [
    | some b ↦ ok b
    | none ↦ elim (s.dying bev) [ some b ↦ ok b | none ↦ fault Fault.use_after_free ]
  ]

  -- What is done to a bufferevent is done where it lies.
  unfoldable pub store_stdin : ℕ → E.Bev → Stdin E → Stdin E
  store_stdin bev b s = elim (s.bevs bev) [
    | some old ↦ record s { bevs = set_bev s.bevs bev (some b) }
    | none ↦ record s { dying = set_bev s.dying bev (some b) }
  ]

  unfoldable pub stdin_readcb :
      (ℕ → Option (List ℕ) → ℤ → Stdin E → Outcome (Stdin E)) → ℕ → Stdin E → Outcome (Stdin E)
  unfolding deref_stdin store_stdin
  stdin_readcb call bev s = deref_stdin bev s >>= λ b.
      let input_len = to_int (E.input_length b) in
      elim s.m_cb [
        | none ↦ fault Fault.null_deref
        | some cb ↦ call cb (E.pullup b (to_size input_len)) input_len s >>= λ s'.
            deref_stdin bev s' >>= λ b'. ok (store_stdin bev (E.drain b' (to_size input_len)) s')
      ]

  drain_stdin : ℕ → ℕ → Stdin E → Outcome (Stdin E)
  unfolding deref_stdin store_stdin
  drain_stdin bev n s = deref_stdin bev s >>= λ b'. ok (store_stdin bev (E.drain b' n) s)
