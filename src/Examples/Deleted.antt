-- ===== src/Examples/Deleted.antt =====
-- A class whose OnDisconnected deletes the object, as include/connector.h allows.
use libevent_cpp.Prelude.{
  ℕ, ◌≡◌, ◌<◌, refl, ◌∙◌, inl, true, false, none, some, List, [], ◌∷◌, arith,
}
use libevent_cpp.Prelude.Int.{pos}
use libevent_cpp.Prelude.Outcome.{ok, fault, Fault, Safe, safe, ◌>>=◌}
use libevent_cpp.Bytes.{wire_u32}
use libevent_cpp.Con.{Con, Handlers, delete_this, destroy_con, free, reset, conn_event_callback}
use libevent_cpp.Con.Read.{conn_read_callback_no_cp}
use libevent_cpp.Con.Receive.{Holds, pack}
use libevent_cpp.Con.Send.{send_data_pack}
use libevent_cpp.Con.Sending.{checked_full}
use libevent_cpp.Con.Deleting.{
  Gone, DeletesItself, RecvDeletes, disconnect-Gone, reported, disconnected_deletes,
  conn_read_callback-deleted,
}
use libevent_cpp.Examples.World.{Buffers, mail, keeper, open_with}
use libevent_cpp.Examples.Wire.{wire, arrived, arrived-Holds}

abbrev leaving : Handlers mail
leaving = record keeper { on_disconnected = λ c. delete_this c }

leaving-DeletesItself : DeletesItself leaving 1
unfolding delete_this destroy_con free reset
leaving-DeletesItself c a z gone =
    safe
      (record c {
        m_buf_e = none;
        m_fd = pos 0;
        m_is_connect = false;
        m_rev_pack_len = 0;
        is_deleted = true;
      })
      (rw a refl) (record { deleted = refl; freed = gone })

-- The peer closes: BEV_EVENT_READING and BEV_EVENT_EOF.
disconnected_deletes_example :
    Safe (Gone leaving 1) (conn_event_callback leaving 17 (open_with arrived []))
disconnected_deletes_example =
    disconnected_deletes leaving 1 (open_with arrived []) arrived wire leaving-DeletesItself
      arrived-Holds refl
      (reported 17 refl (safe (open_with arrived []) refl (arrived, refl, refl, refl, refl, tt)))

-- It answers each message.
abbrev answering : Handlers mail
answering = record leaving { on_recv = λ m c. send_data_pack leaving m c >>= λ r. ok r.0 }

-- A limit of one byte, and two that wait.
abbrev crowded : Buffers
crowded = record { received = wire; waiting = 1 ∷ 2 ∷ [] }

abbrev crowded_con : Con mail
crowded_con = record (open_with {A = List (List ℕ)} crowded []) { m_msbs = 1 }

crowded-Holds : Holds 1 crowded_con crowded wire
crowded-Holds = record {
  live = refl;
  is_open = refl;
  framed = refl;
  alive = refl;
  bytes = omega arith;
  small = omega arith;
  image = inl (refl, refl);
}

abbrev IsCrowded : Con mail → Buffers → Type 0
IsCrowded c b = (c.m_is_connect ≡ true) × (c.m_msbs ≡ 1) × (b.waiting ≡ 1 ∷ 2 ∷ [])

-- The answer does not fit, so SendData drops the connection, and OnDisconnected deletes the object.
answering-RecvDeletes : RecvDeletes answering 1 IsCrowded (pack (7 ∷ []))
unfolding send_data_pack
answering-RecvDeletes c b h a l f alive =
    let small : 0 < c.m_msbs = omega (arith, h.1) in
    let over : c.m_msbs < 2 = omega (arith, h.1) in
    let two : mail.output_length b ≡ some 2 = rw h.2 refl in
    elim (disconnect-Gone leaving 1 c leaving-DeletesItself (b, a, l, f, alive, tt)) [
      | safe d e gone ↦
          safe d (rw (h.0, f, a) (rw (checked_full leaving 1 2 _ c b l small two over) (rw e refl)))
            gone.deleted
    ]

conn_read_callback-deleted_example :
    conn_read_callback_no_cp answering 1 crowded_con ≡ fault Fault.use_after_free
unfolding wire_u32
conn_read_callback-deleted_example =
    conn_read_callback-deleted answering 1 IsCrowded crowded_con crowded wire
      (λ c b n b' freed h same. (h.0, h.1, same ∙ h.2)) (refl, refl, refl) crowded-Holds refl
      (omega arith) refl answering-RecvDeletes
