-- ===== src/ConMgr/Closing.antt =====
-- BaseConMgr::Foreach with a callback that unregisters the very connection that it is called with.
use libevent_cpp.Prelude.{ℕ, ◌≡◌, Option, none, some, [], ◌∷◌}
use libevent_cpp.Prelude.Outcome.{Outcome, ok, fault, Fault}
use libevent_cpp.ConMgr.{Entries, ConMgr, post_del_conn}

-- Each registered object carries the identifier that it is registered under, as
-- CreateConnectForListener sets it.
abbrev pub AllNamed : Entries → (ℕ → Option ℕ) → Type 0
AllNamed [] objs = Unit {0}
AllNamed ((id, p) ∷ es) objs = (objs p ≡ some id) × AllNamed es objs

-- The callback asks the object for its identifier and calls PostDelConn.
abbrev pub close_it : ℕ → ConMgr → Outcome ConMgr
close_it p m = elim (m.objs p) [
  | none ↦ fault Fault.use_after_free
  | some id ↦ ok (post_del_conn id m).0
]
