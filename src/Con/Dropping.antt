-- ===== src/Con/Dropping.antt =====
-- ConCom::conn_read_callback_no_cp when OnRecv itself drops the connection.
use libevent_cpp.Prelude.{ℕ, suc, ◌≡◌, Bool, false, none, some}
use libevent_cpp.Prelude.Int.{is_zero}
use libevent_cpp.Prelude.Outcome.{ok, fault, Fault}
use libevent_cpp.Env.{Env}
use libevent_cpp.Con.{Con, Handlers, MsgPack, deref, update}
use libevent_cpp.Con.Read.{read_round, read_loop, conn_read_callback_no_cp}

module _ {E : Env} where
  -- OnRecv frees the bufferevent that it is called from, and returns. `stays` says whether the
  -- object is without a connection then, or has got another one already.
  pub record Drops (U : Handlers E) (bev : ℕ) (stays : Bool) (recv : MsgPack → E.User → E.User)
      : Type 0 where
    pub drop_lem :
        (m : MsgPack) (c : Con E) (b : E.Bev)
        → c.bevs bev ≡ some b
        → is_zero c.m_fd ≡ false
        → (c' : Con E) × (U.on_recv m c ≡ ok c')
          × (c'.bevs bev ≡ none)
          × (c'.dying bev ≡ some b)
          × (is_zero c'.m_fd ≡ stays)
          × (c'.is_deleted ≡ c.is_deleted)
          × (c'.user ≡ recv m c.user)

  module _ (U : Handlers E) (bev : ℕ) where
    -- What the loop goes on with, after a message of `n` bytes with its header, where the object has
    -- another connection already.
    abbrev pub old_rest : ℕ → E.Bev → Con E → Con E
    old_rest n b c = record c {
      dying = update c.dying bev (some (E.drain b n));
      m_rev_pack_len = 0;
    }

    pub loop_faults :
        (fuel : ℕ) (c : Con E)
        → read_round U bev c ≡ fault Fault.use_after_free
        → read_loop U (suc fuel) bev c ≡ fault Fault.use_after_free
    unfolding read_loop
    loop_faults fuel c e = rw e

    pub callback_loop :
        (c : Con E) (b : E.Bev)
        → c.bevs bev ≡ some b
        → conn_read_callback_no_cp U bev c ≡ read_loop U (suc (E.input_length b)) bev c
    unfolding conn_read_callback_no_cp
    callback_loop c b e = rw (e, deref)
