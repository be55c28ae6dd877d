-- ===== src/Con/Valid.antt =====
-- src/connector.cc: the two phases of a connection object, idle and attached, and the calls on it.
use libevent_cpp.Prelude.{
  ℕ, ltb, ◌≡◌, refl, Bool, true, false, Option, none, some, List, arith, ◌==◌, if◌then◌else◌,
  Bool-cases, inl, inr, ◌⊎◌,
}
use libevent_cpp.Prelude.Int.{is_zero}
use libevent_cpp.Prelude.Outcome.{Safe, safe, Safe->>=, Outcome, ok, ◌>>=◌}
use libevent_cpp.Env.{Env}
use libevent_cpp.Con.{
  Con, Handlers, deref, put, store, still_there, reset, free, disconnect, update,
}
use libevent_cpp.Con.Send.{bufferevent_write, write_frame, limit_backlog, check_backlog, checked}

module _ {E : Env} where
  pub still_there_lem : (c : Con E) → c.is_deleted ≡ false → still_there c ≡ ok c
  unfolding still_there
  still_there_lem c alive = rw alive

-- Nothing is asked of the state of the class.
abbrev pub Anything : {User : Type 0} → User → Type 0
Anything u = Unit {0}

module _ {E : Env} (P : E.User → Type 0) where
  -- The object is there, and in one of two phases, and `P` holds of the state of its class. No
  -- connection: every field is as after Free. Or a connection: the socket is open and the
  -- bufferevent is live.
  pub data IsValid (c : Con E) : Type 0 where
    idle :
        c.m_buf_e ≡ none
        → is_zero c.m_fd ≡ true
        → c.m_is_connect ≡ false
        → c.m_rev_pack_len ≡ 0
        → c.is_deleted ≡ false
        → P c.user
        → IsValid c
    attached :
        (bev : ℕ) (b : E.Bev)
        → c.m_buf_e ≡ some bev
        → c.bevs bev ≡ some b
        → is_zero c.m_fd ≡ false
        → c.is_deleted ≡ false
        → P c.user
        → IsValid c

  -- Callbacks that return, and leave the object in one of the phases, with `P`.
  pub record Respects (U : Handlers E) : Type 0 where
    pub connected_lem : (c : Con E) → IsValid c → Safe IsValid (U.on_connected c)
    pub error_lem : (e : ℕ) (c : Con E) → IsValid c → Safe IsValid (U.on_error e c)
    pub disconnected_lem : (c : Con E) → IsValid c → Safe IsValid (U.on_disconnected c)

  abbrev pub IsValidResult : Con E × Bool → Type 0
  IsValidResult r = IsValid r.0

  -- Attached, through this very bufferevent.
  abbrev pub At : ℕ → Con E → Type 0
  At bev c =
      (b : E.Bev) × (c.m_buf_e ≡ some bev)
      × (c.bevs bev ≡ some b)
      × (is_zero c.m_fd ≡ false)
      × (c.is_deleted ≡ false)
      × P c.user

  pub free-IsValid : (c : Con E) → IsValid c → Safe IsValid (free c)
  unfolding free
  free-IsValid c (idle a f k l alive q) = safe (reset c) (rw a) (idle refl refl refl refl alive q)
  free-IsValid c (attached bev b a e f alive q) =
      safe (reset (record c { bevs = update c.bevs bev none; dying = update c.dying bev (some b) }))
        (ground arith) (idle refl refl refl refl alive q)

  pub At-IsValid : (bev : ℕ) (c : Con E) → At bev c → IsValid c
  At-IsValid bev c (b, a, e, f, alive, q) = attached bev b a e f alive q

  pub put-At : (bev : ℕ) (b : E.Bev) (c : Con E) → At bev c → At bev (put bev b c)
  unfolding put
  put-At bev b c (_, a, e, f, alive, q) = (b, a, ground arith, f, alive, q)

  pub bufferevent_write-At :
      (bev : ℕ) (xs : List ℕ) (c : Con E)
      → At bev c
      → Safe (λ r. At bev r.0) (bufferevent_write bev xs c)
  unfolding bufferevent_write
  bufferevent_write-At bev xs c v =
      safe (put bev (E.write v.0 xs).0 c, (E.write v.0 xs).1) (rw (deref, store, v.2) refl)
        (put-At bev (E.write v.0 xs).0 c v)

  -- A call that goes on only if the one before it returned true.
  If-true :
      (P Q : Con E → Type 0) (r : Con E × Bool) (f : Con E → Outcome (Con E × Bool))
      → P r.0
      → ((c : Con E) → P c → Q c)
      → ((c : Con E) → P c → Safe (λ s. Q s.0) (f c))
      → Safe (λ s. Q s.0) (if r.1 then f r.0 else ok (r.0, false))
  If-true P Q r f p k g = elim (Bool-cases r.1) [
    | inl t ↦ rw t (g r.0 p)
    | inr e ↦ rw e (safe (r.0, false) refl (k r.0 p))
  ]

  pub write_frame-At :
      (bev len : ℕ) (body : List ℕ) (c : Con E)
      → At bev c
      → Safe (λ r. At bev r.0) (write_frame bev len body c)
  unfolding write_frame
  write_frame-At bev len body c v =
      Safe->>= (bufferevent_write bev _ c) _ (bufferevent_write-At bev _ c v) λ r p.
        If-true (At bev) (At bev) r (bufferevent_write bev body) p (λ d q. q)
          (λ d q. bufferevent_write-At bev body d q)

  module _ (U : Handlers E) (u : Respects U) where
    pub disconnect-IsValid : (c : Con E) → IsValid c → Safe IsValid (disconnect U c)
    unfolding disconnect
    disconnect-IsValid c v = elim (Bool-cases (is_zero c.m_fd)) [
      | inl e ↦ rw e (safe c refl v)
      | inr e ↦ rw e (Safe->>= (free c) U.on_disconnected (free-IsValid c v) u.disconnected_lem)
    ]

    drop-IsValid :
        (c : Con E) → IsValid c → Safe IsValidResult (disconnect U c >>= λ c'. ok (c', false))
    drop-IsValid c v =
        Safe->>= (disconnect U c) _ (disconnect-IsValid c v) (λ d w. safe (d, false) refl w)

    limit_backlog-Safe :
        (o : Option ℕ) (bev : ℕ) (c : Con E)
        → At bev c
        → Safe (λ r. (r ≡ (c, true)) ⊎ ((r.1 ≡ false) × IsValid r.0)) (limit_backlog U o c)
    unfolding limit_backlog
    limit_backlog-Safe none bev c v = safe (c, false) refl (inr (refl, At-IsValid bev c v))
    limit_backlog-Safe (some n) bev c v = elim (Bool-cases (ltb c.m_msbs n)) [
      | inl e ↦ rw e (
          Safe->>= (disconnect U c) _ (disconnect-IsValid c (At-IsValid bev c v))
            (λ d w. safe (d, false) refl (inr (refl, w))))
      | inr e ↦ rw e (safe (c, true) refl (inl refl))
    ]

    check_backlog-Safe :
        (bev : ℕ) (c : Con E)
        → At bev c
        → Safe (λ r. (r ≡ (c, true)) ⊎ ((r.1 ≡ false) × IsValid r.0)) (check_backlog U bev c)
    unfolding check_backlog
    check_backlog-Safe bev c v = elim (Bool-cases (c.m_msbs == 0)) [
      | inl e ↦ rw e (safe (c, true) refl (inl refl))
      | inr e ↦ rw (e, v.2, deref) (limit_backlog-Safe (E.output_length v.0) bev c v)
    ]

    pub checked-IsValid :
        (bev : ℕ) (write : Con E → Outcome (Con E × Bool)) (c : Con E)
        → At bev c
        → Safe (λ r. At bev r.0) (write c)
        → Safe IsValidResult (checked U bev write c)
    unfolding checked
    checked-IsValid bev write c v (safe (d, done) e w) =
        Safe->>= (check_backlog U bev c) _ (check_backlog-Safe bev c v) go
      where
        go :
            (r : Con E × Bool)
            → (r ≡ (c, true)) ⊎ ((r.1 ≡ false) × IsValid r.0)
            → Safe IsValidResult (if r.1 then write r.0 else ok (r.0, false))
        go r (inl p) = rw p (safe (d, done) e (At-IsValid bev d w))
        go r (inr (f, x)) = rw f (safe (r.0, false) refl x)
