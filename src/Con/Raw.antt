-- ===== src/Con/Raw.antt =====
-- ConCom::readcb of a connection in raw mode.
use libevent_cpp.Prelude.{ℕ}
use libevent_cpp.Prelude.Outcome.{Outcome, ok, ◌>>=◌}
use libevent_cpp.Env.{Env}
use libevent_cpp.Con.{Con, Handlers, deref, store}

module _ {E : Env} (U : Handlers E) (bev : ℕ) where
  -- The last step: what OnRawRecv said it has taken is drained.
  drain_raw : ℕ → Con E → Outcome (Con E)
  drain_raw n c = deref bev c >>= λ b. ok (store bev (E.drain b n) c)
