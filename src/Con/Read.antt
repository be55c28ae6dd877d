-- ===== src/Con/Read.antt =====
-- src/connector.cc, ConCom::readcb and ConCom::conn_read_callback_no_cp: what runs when bytes have
-- arrived. A round of the `while (true)` is `read_round`; it either returns from the callback or
-- goes on to the next round.
use libevent_cpp.Prelude.{ℕ, zero, suc, ◌+◌, ◌%◌, ◌^◌, none, some, ◌==◌, if◌then◌else◌}
use libevent_cpp.Prelude.Int.{ℤ, pos, ltb_ℤ, to_int, to_size}
use libevent_cpp.Prelude.Outcome.{Outcome, ok, fault, out_of_fuel, Fault, ◌>>=◌}
use libevent_cpp.Bytes.{load_u32, store_u32, auto_ntoh32}
use libevent_cpp.Env.{Env}
use libevent_cpp.Con.{
  Con, Handlers, cast_pack, deref, store, still_there, disconnect, is_wait_connect_req,
}
use libevent_cpp.Con.Frames.{bad_len}

abbrev pub head_len : ℕ
head_len = 4

-- How a round of the loop ends.
pub data Round (E : Env) : Type 0 where
  returns continues : Con E → Round E

module _ {E : Env} where
  -- `if (0 == m_rev_pack_len)`: the length is read, and turned to host order where it lies.
  unfoldable pub read_head : ℕ → E.Bev → Con E → Outcome (Con E)
  unfolding store
  read_head bev b c =
      if c.m_rev_pack_len == 0
      then (elim (E.pullup b head_len) [
        | none ↦ fault Fault.null_deref
        | some mem ↦
            let len = auto_ntoh32 (load_u32 mem) in
            ok (store bev (E.overwrite b (store_u32 len)) (record c { m_rev_pack_len = len }))
      ])
      else ok c

  module _ (U : Handlers E) where
    -- After OnRecv: the object may have dropped its connection, or not be there any more.
    unfoldable pub after_recv : ℕ → ℕ → Con E → Outcome (Round E)
    unfolding still_there is_wait_connect_req deref store
    after_recv bev finish_pack_len c1 = still_there c1 >>= λ c.
        if is_wait_connect_req c
        then ok (returns c)
        else (deref bev c >>= λ b.
            ok
              (continues (record (store bev (E.drain b finish_pack_len) c) { m_rev_pack_len = 0 })))

    -- A whole message is in the buffer.
    unfoldable pub deliver : ℕ → ℕ → Con E → Outcome (Round E)
    unfolding deref after_recv disconnect
    deliver bev finish_pack_len c = deref bev c >>= λ b. elim (E.pullup b finish_pack_len) [
      | none ↦ disconnect U c >>= λ c'. ok (returns c')
      | some mem ↦ U.on_recv (cast_pack mem) c >>= λ c'. after_recv bev finish_pack_len c'
    ]

    -- The rest of a round, when the length of the message is known. `m_rev_pack_len + HEAD_LEN` is
    -- a sum of unsigned numbers, stored in an int.
    unfoldable pub read_body : ℕ → ℤ → Con E → Outcome (Round E)
    unfolding disconnect deliver
    read_body bev input_len c =
        if bad_len c.m_rev_pack_len
        then (disconnect U c >>= λ c'. ok (returns c'))
        else (let finish_pack_len = to_int ((c.m_rev_pack_len + head_len) % 2 ^ 32) in
            if ltb_ℤ input_len finish_pack_len
            then ok (returns c)
            else deliver bev (to_size finish_pack_len) c)

    unfoldable pub read_round : ℕ → Con E → Outcome (Round E)
    unfolding deref read_head read_body
    read_round bev c = deref bev c >>= λ b.
        let input_len = to_int (E.input_length b) in
        if ltb_ℤ input_len (pos head_len)
        then ok (returns c)
        else (read_head bev b c >>= λ c'. read_body bev input_len c')

    unfoldable pub read_loop : ℕ → ℕ → Con E → Outcome (Con E)
    read_loop zero bev c = out_of_fuel
    read_loop (suc fuel) bev c = read_round bev c >>= λ r. elim r [
      | returns c' ↦ ok c'
      | continues c' ↦ read_loop fuel bev c'
    ]

    -- A round that goes on has drained five bytes at least, so the bytes at hand bound the rounds.
    unfoldable pub conn_read_callback_no_cp : ℕ → Con E → Outcome (Con E)
    unfolding deref read_loop
    conn_read_callback_no_cp bev c = deref bev c >>= λ b. read_loop (suc (E.input_length b)) bev c

    unfoldable pub readcb : ℕ → Con E → Outcome (Con E)
    unfolding deref store conn_read_callback_no_cp
    readcb bev c =
        if c.m_is_raw_read_cb
        then (deref bev c >>= λ b.
            let input_len = to_int (E.input_length b) in
            U.on_raw_recv (E.pullup b (to_size input_len)) input_len c >>= λ r.
            deref bev r.0 >>= λ b'. ok (store bev (E.drain b' (to_size r.1)) r.0))
        else conn_read_callback_no_cp bev c
