-- ===== src/Con/Send.antt =====
-- src/connector.cc, what sends: ConCom::SendPack, the two ConCom::SendData, ConCom::Setwatermark,
-- ConCom::Flush and MsgPack::Set. A result is the object and what the method returns. A pointer to
-- data is `none` where it is null; it has as many bytes behind it as the call says.
use libevent_cpp.Prelude.{
  ℕ, ◌%◌, ◌^◌, Bool, true, false, Option, none, some, List, ltb, leb, ◌==◌, if◌then◌else◌, length,
  take,
}
use libevent_cpp.Prelude.Int.{ℤ, pos, is_zero, to_size}
use libevent_cpp.Prelude.Outcome.{Outcome, ok, ◌>>=◌}
use libevent_cpp.Bytes.{store_u32, auto_hton32}
use libevent_cpp.Env.{Env}
use libevent_cpp.Con.{Con, Handlers, MsgPack, max_msg_data_len, deref, store, disconnect}

-- `sizeof(data)` is MAX_MSG_DATA_LEN.
unfoldable set_pack : List ℕ → MsgPack → MsgPack × Bool
set_pack s m =
    if leb max_msg_data_len (length s)
    then (m, false)
    else (record { len = length s % 2 ^ 32; data_bytes = s }, true)

module _ {E : Env} where
  -- One call of bufferevent_write.
  unfoldable pub bufferevent_write : ℕ → List ℕ → Con E → Outcome (Con E × Bool)
  unfolding deref store
  bufferevent_write bev xs c =
      deref bev c >>= λ b. let w = E.write b xs in ok (store bev w.0 c, w.1)

  -- The length in network order, then the data; the second write is made only if the first went
  -- well.
  unfoldable pub write_frame : ℕ → ℕ → List ℕ → Con E → Outcome (Con E × Bool)
  write_frame bev len body c = bufferevent_write bev (store_u32 (auto_hton32 len)) c >>= λ r.
      if r.1 then bufferevent_write bev body r.0 else ok (r.0, false)

  module _ (U : Handlers E) where
    -- With more bytes waiting than `m_msbs` the connection is dropped. `true` says that the send
    -- goes on.
    unfoldable pub limit_backlog : Option ℕ → Con E → Outcome (Con E × Bool)
    limit_backlog none c = ok (c, false)
    limit_backlog (some output_len) c =
        if ltb c.m_msbs output_len then (disconnect U c >>= λ c'. ok (c', false)) else ok (c, true)

    -- `if (m_msbs != 0)`.
    unfoldable pub check_backlog : ℕ → Con E → Outcome (Con E × Bool)
    unfolding deref limit_backlog
    check_backlog bev c =
        if c.m_msbs == 0
        then ok (c, true)
        else (deref bev c >>= λ b. limit_backlog (E.output_length b) c)

    -- The test of the backlog, then a write.
    unfoldable pub checked : ℕ → (Con E → Outcome (Con E × Bool)) → Con E → Outcome (Con E × Bool)
    checked bev write c = check_backlog bev c >>= λ r. if r.1 then write r.0 else ok (r.0, false)

    unfoldable pub send_pack : Option (List ℕ) → ℕ → Con E → Outcome (Con E × Bool)
    send_pack body len c = if len == 0 then ok (c, false) else (elim body [
      | none ↦ ok (c, false)
      | some bytes ↦
          if c.m_is_connect
          then (if ltb max_msg_data_len len
              then ok (c, false)
              else if is_zero c.m_fd
              then ok (c, false)
              else (elim c.m_buf_e [
                | none ↦ ok (c, false)
                | some bev ↦ checked bev (write_frame bev len (take len bytes)) c
              ]))
          else ok (c, false)
    ])

    -- SendPack(const string &): `msg.length()` is a size_t, and the parameter a uint32_t.
    unfoldable pub send_pack_string : List ℕ → Con E → Outcome (Con E × Bool)
    send_pack_string msg c = send_pack (some msg) (length msg % 2 ^ 32) c

    -- SendData(const MsgPack &).
    unfoldable pub send_data_pack : MsgPack → Con E → Outcome (Con E × Bool)
    send_data_pack msg c =
        if c.m_is_connect
        then (if ltb max_msg_data_len msg.len
            then ok (c, false)
            else if is_zero c.m_fd
            then ok (c, false)
            else (elim c.m_buf_e [
              | none ↦ ok (c, false)
              | some bev ↦ checked bev (write_frame bev msg.len (take msg.len msg.data_bytes)) c
            ]))
        else ok (c, false)

    -- SendData(const char *, int): the bytes as they are, with no header.
    unfoldable pub send_data_raw : Option (List ℕ) → ℤ → Con E → Outcome (Con E × Bool)
    send_data_raw body len c =
        if c.m_is_connect
        then (if is_zero c.m_fd then ok (c, false) else (elim c.m_buf_e [
          | none ↦ ok (c, false)
          | some bev ↦ elim body [
            | none ↦ ok (c, false)
            | some bytes ↦ checked bev (bufferevent_write bev (take (to_size len) bytes)) c
          ]
        ]))
        else ok (c, false)

  -- Unfinished in the source: it logs an error and returns 0.
  unfoldable pub flush : Con E → Con E × ℤ
  flush c = (c, pos 0)

  unfoldable pub setwatermark : ℕ → ℕ → ℕ → Con E → Outcome (Con E)
  unfolding deref store
  setwatermark events lowmark highmark c =
      if c.m_is_connect
      then (if is_zero c.m_fd then ok c else (elim c.m_buf_e [
        | none ↦ ok c
        | some bev ↦
            deref bev c >>= λ b. ok (store bev (E.setwatermark b events lowmark highmark) c)
      ]))
      else ok c
