-- ===== src/Trials/Recon/Created.antt =====
-- test/client_prj/main.cc, ClientReconByDelCtr: the connection of a new client.
use libevent_cpp.Prelude.{
  ℕ, ◌≡◌, refl, ap, ◌∙◌, ◌⊎◌, inl, inr, true, false, Option, none, some, arith, ◌==◌, Bool-cases,
}
use libevent_cpp.Prelude.Int.{is_neg, is_zero}
use libevent_cpp.Prelude.Outcome.{Safe, safe}
use libevent_cpp.Bytes.{auto_hton16}
use libevent_cpp.Env.{Env}
use libevent_cpp.Con.{new_con, put, set_addr_ip, set_socket_info, still_there, update}
use libevent_cpp.Con.Client.{Attempt, connect_init_ip, connect_by_addr, early, take_socket}
use libevent_cpp.Con.Valid.{attached}
use libevent_cpp.Con.Alone.{alone, IsTidy, update_other}
use libevent_cpp.Trials.Flood.{Member}
use libevent_cpp.Trials.Recon.{Counted, local_ip, mass_con_svr_port, recon}

-- An attempt that gets its socket and its bufferevent, and goes on.
pub record Succeeds {E : Env} (t : Attempt E) : Type 0 where
  pub p : ℕ
  pub b : E.Bev
  pub made : t.new_bev ≡ some (p, b)
  pub nonzero : is_zero t.socket_fd ≡ false
  pub nonneg : is_neg t.socket_fd ≡ false
  pub quiet : t.early_events ≡ none
  pub going : t.connects ≡ true

-- In a heap that was empty, the bufferevent that was made is the only one.
only_made :
    {A : Type 0} (f : ℕ → Option A) (p : ℕ) (b : A)
    → ((q : ℕ) → f q ≡ none)
    → (q : ℕ) → (update f p (some b) q ≡ none) ⊎ (some p ≡ some q)
only_made f p b empty q = elim (Bool-cases (p == q)) [
  | inl t ↦ let same : p ≡ q = ground arith in inr (ap some same)
  | inr n ↦ inl (update_other f p q (some b) n ∙ empty q)
]

module _ {E : Env} (G : Member (E.User) Counted) where
  -- ConnectInit of a new client returns true, and its bufferevent is the only one.
  pub connect_init-new :
      (t : Attempt E) (bevs : ℕ → Option (E.Bev)) (user : E.User)
      → Succeeds t
      → ((q : ℕ) → bevs q ≡ none)
      → Safe
          (λ r. IsTidy r.0 × (r.1 ≡ true))
          (connect_init_ip (recon G) (some local_ip) mass_con_svr_port t (new_con E bevs user))
  unfolding connect_init_ip connect_by_addr early take_socket set_addr_ip set_socket_info put
      auto_hton16 new_con still_there
  connect_init-new t bevs user s empty =
      let c0 = set_addr_ip local_ip mass_con_svr_port (new_con E bevs user) in
      safe
        (
          record c0 { m_buf_e = some s.p; m_fd = t.socket_fd; bevs = update bevs s.p (some s.b) },
          true,
        )
        (rw (s.nonneg, s.made, s.quiet, s.going) refl)
        (
          record {
            valid = attached s.p s.b refl (ground arith) s.nonzero refl tt;
            only = alone (only_made bevs s.p s.b empty);
          },
          refl,
        )
