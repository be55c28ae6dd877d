-- ===== src/Con/Deleting.antt =====
-- src/connector.cc when the object is deleted inside one of its own virtual methods.
use libevent_cpp.Prelude.{
  ℕ, ◌+◌, ◌≤◌, ◌≡◌, refl, ◌∙◌, true, false, none, some, List, arith, length, take, drop,
}
use libevent_cpp.Prelude.Int.{is_zero, pos}
use libevent_cpp.Prelude.Outcome.{Outcome, ok, fault, Fault, Safe, safe, ◌>>=◌}
use libevent_cpp.Bytes.{wire_u32}
use libevent_cpp.Env.{Env}
use libevent_cpp.Con.{
  Con, Handlers, MsgPack, still_there, disconnect, conn_event_callback, free, reset, delete_this,
  destroy_con, bufferevent_free, update,
}
use libevent_cpp.Con.Frames.{bad_len}
use libevent_cpp.Con.Read.{returns, after_recv, read_round, conn_read_callback_no_cp}
use libevent_cpp.Con.Receive.{
  Holds, IsStable, pack, read_head-Headed, read_round-head, read_body-bad, read_body-whole,
  deliver_recv,
}
use libevent_cpp.Con.Delivery.{loop_drops}
use libevent_cpp.Con.Dropping.{loop_faults, callback_loop}
use libevent_cpp.Con.Valid.{Anything, At, still_there_lem}
use libevent_cpp.Con.Methods.{is_connected_event}

-- `delete` of an object that is attached.
pub delete_this_gone :
    {E : Env} (bev : ℕ) (c : Con E) (b : E.Bev)
    → c.m_buf_e ≡ some bev
    → c.bevs bev ≡ some b
    → Safe (λ d. d.is_deleted ≡ true) (delete_this c)
unfolding delete_this destroy_con free reset bufferevent_free
delete_this_gone bev c b a l =
    safe
      (record (reset
        (record c { bevs = update c.bevs bev none; dying = update c.dying bev (some b) })) {
          is_deleted = true;
        })
      (rw (a, l) refl) refl

module _ {E : Env} (U : Handlers E) (bev : ℕ) where
  -- The object is gone, and so is the bufferevent that it had.
  pub record Gone (c : Con E) : Type 0 where
    pub deleted : c.is_deleted ≡ true
    pub freed : c.bevs bev ≡ none

  -- OnDisconnected of a class, called as DisConnect calls it, with nothing left of the connection,
  -- deletes the object and returns, and allocates no bufferevent where the old one was.
  abbrev pub DeletesItself : Type 0
  DeletesItself =
      (c : Con E)
      → c.m_buf_e ≡ none
      → is_zero c.m_fd ≡ true
      → c.bevs bev ≡ none
      → Safe Gone (U.on_disconnected c)

  pub disconnect-Gone : (c : Con E) → DeletesItself → At Anything bev c → Safe Gone (disconnect U c)
  unfolding disconnect free reset bufferevent_free
  disconnect-Gone c deletes (b, a, l, f, alive, q) =
      rw (f, a, l)
        (deletes
          (reset (record c { bevs = update c.bevs bev none; dying = update c.dying bev (some b) }))
          refl refl (ground arith))

  -- OnRecv, called for the message on an open connection of which `P` holds, returns with the
  -- object deleted.
  abbrev pub RecvDeletes : (Con E → E.Bev → Type 0) → MsgPack → Type 0
  RecvDeletes P m =
      (c : Con E) (b : E.Bev)
      → P c b
      → c.m_buf_e ≡ some bev
      → c.bevs bev ≡ some b
      → is_zero c.m_fd ≡ false
      → c.is_deleted ≡ false
      → Safe (λ d. d.is_deleted ≡ true) (U.on_recv m c)

  -- What ends an open connection whose bytes at hand are `p`, from outside of OnRecv: an event other
  -- than BEV_EVENT_CONNECTED, for which OnError leaves the object attached; a bad length among the
  -- bytes; and a call of DisConnect.
  pub data Ending (c : Con E) (p : List ℕ) : Type 0 where
    reported :
        (events : ℕ)
        → is_connected_event events ≡ false
        → Safe (At Anything bev) (U.on_error events c)
        → Ending c p
    bad_length : 4 ≤ length p → bad_len (wire_u32 p) ≡ true → Ending c p
    asked : Ending c p

  -- The call that it comes to.
  abbrev pub ended : (c : Con E) (p : List ℕ) → Ending c p → Outcome (Con E)
  ended c p (reported events f e) = conn_event_callback U events c
  ended c p (bad_length h g) = conn_read_callback_no_cp U bev c
  ended c p asked = disconnect U c

  event_run :
      (events : ℕ) (c d : Con E)
      → is_connected_event events ≡ false
      → U.on_error events c ≡ ok d
      → d.is_deleted ≡ false
      → conn_event_callback U events c ≡ disconnect U d
  unfolding conn_event_callback
  event_run events c d f e alive = rw (f, e, still_there_lem d alive) refl

  Holds-At :
      (c : Con E) (b : E.Bev) (p : List ℕ)
      → Holds bev c b p
      → c.m_buf_e ≡ some bev
      → At Anything bev c
  Holds-At c b p v a = (b, a, v.live, v.is_open, v.alive, tt)

  -- The class may delete the object in OnDisconnected, where an open connection ends by what is
  -- outside of OnRecv: an event of libevent other than BEV_EVENT_CONNECTED, for which OnError
  -- returns and leaves the object attached; a bad length; or a call of DisConnect. The call
  -- returns, and the object and its bufferevent are gone. (OnDisconnected itself deletes and
  -- returns, and allocates no bufferevent where the old one was.)
  pub disconnected_deletes :
      (c : Con E) (b : E.Bev) (p : List ℕ)
      → DeletesItself
      → Holds bev c b p
      → c.m_buf_e ≡ some bev
      → (x : Ending c p) → Safe Gone (ended c p x)
  disconnected_deletes c b p deletes v a asked = disconnect-Gone c deletes (Holds-At c b p v a)
  disconnected_deletes c b p deletes v a (reported events f (safe d e at)) =
      rw (event_run events c d f e at.4) (disconnect-Gone d deletes at)
  disconnected_deletes c b p deletes v a (bad_length h g) =
      let (c1, b1, head, v1, a1) =
        read_head-Headed bev (λ d _. d.m_buf_e ≡ some bev) c b p (λ d b2 n b3 freed e f. e) a v h in
      let round : read_round U bev c ≡ (disconnect U c1 >>= λ d. ok (returns d)) =
        read_round-head U bev c b p v h
        ∙ rw head (read_body-bad U bev c1 (pos (length p)) (rw v1.len g)) in
      rw (callback_loop U bev c b v.live ∙ loop_drops U bev (E.input_length b) c c1 round)
        (disconnect-Gone c1 deletes (b1, a1, v1.live, v1.is_open, v1.alive, tt))

  after_recv_deleted :
      (n : ℕ) (c : Con E) → c.is_deleted ≡ true → after_recv U bev n c ≡ fault Fault.use_after_free
  unfolding after_recv still_there
  after_recv_deleted n c gone = rw gone refl

  -- Inside OnRecv the object must not be deleted, be it by a DisConnect there. On an open connection
  -- whose bytes start with a whole message, and whose OnRecv returns from it with the object deleted
  -- (as far as what `P` says of the connection, whatever is read of its input), the callback
  -- ConCom::conn_read_callback_no_cp goes on to use the object.
  pub conn_read_callback-deleted :
      (P : Con E → E.Bev → Type 0) (c : Con E) (b : E.Bev) (p : List ℕ)
      → IsStable bev P
      → P c b
      → Holds bev c b p
      → c.m_buf_e ≡ some bev
      → 4 + wire_u32 p ≤ length p
      → bad_len (wire_u32 p) ≡ false
      → RecvDeletes P (pack (take (wire_u32 p) (drop 4 p)))
      → conn_read_callback_no_cp U bev c ≡ fault Fault.use_after_free
  conn_read_callback-deleted P c b p stable holds v a whole good deletes =
      let n = wire_u32 p in
      let (c1, b1, head, v1, at) =
        read_head-Headed bev (λ d b2. P d b2 × (d.m_buf_e ≡ some bev)) c b p
          (λ d b2 n b3 freed e f. (stable d b2 n b3 freed e.0 f, e.1)) (holds, a) v (omega arith) in
      elim (deletes c1 b1 at.0 at.1 v1.live v1.is_open v1.alive) [
        | safe c2 called gone ↦
            callback_loop U bev c b v.live
            ∙ loop_faults U bev (E.input_length b) c (
                read_round-head U bev c b p v (omega arith)
                ∙ rw head (
                    read_body-whole U bev c1 n (length p) v1.len good whole
                    ∙ deliver_recv U bev c1 b1 p v1 v.bytes whole
                    ∙ rw called (after_recv_deleted (4 + n) c2 gone)))
      ]
