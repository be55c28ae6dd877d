-- ===== src/Con/Methods/Guards.antt =====
-- The sending methods of src/connector.cc: what their guards let through.
use libevent_cpp.Prelude.{
  ℕ, ◌≡◌, refl, Bool, true, false, Option, none, some, List, ◌==◌, if◌then◌else◌, inl, inr, ◌⊎◌,
  ltb, take,
}
use libevent_cpp.Prelude.Int.{ℤ, is_zero, to_size}
use libevent_cpp.Prelude.Outcome.{Outcome, ok, Safe, safe}
use libevent_cpp.Env.{Env}
use libevent_cpp.Con.{Con, Handlers, MsgPack, max_msg_data_len}
use libevent_cpp.Con.Send.{
  bufferevent_write, write_frame, checked, send_pack, send_data_pack, send_data_raw,
}
use libevent_cpp.Con.Valid.{
  IsValid, idle, attached, Respects, IsValidResult, At, write_frame-At, bufferevent_write-At,
  checked-IsValid,
}

module _ {E : Env} (P : E.User → Type 0) where
  -- What a method that tests the connection may come to: nothing done, or the test of the backlog
  -- and then something done to the bufferevent of the connection.
  module _ (U : Handlers E) (c : Con E) where
    abbrev pub Guarded : Outcome (Con E × Bool) → Type 0
    Guarded r =
        (r ≡ ok (c, false))
        ⊎ ((bev : ℕ) × (f : Con E → Outcome (Con E × Bool)) × (r ≡ checked U bev f c)
            × (c.m_buf_e ≡ some bev)
            × ((d : Con E) → At P bev d → Safe (λ s. At P bev s.0) (f d)))

    Guarded-if :
        (t : Bool) {x y : Outcome (Con E × Bool)}
        → Guarded x
        → Guarded y
        → Guarded (if t then x else y)
    Guarded-if true g h = g
    Guarded-if false g h = h

    Guarded-buf :
        (o : Option ℕ) (f : ℕ → Con E → Outcome (Con E × Bool))
        → c.m_buf_e ≡ o
        → ((bev : ℕ) (d : Con E) → At P bev d → Safe (λ s. At P bev s.0) (f bev d))
        → Guarded (elim o [ none ↦ ok (c, false) | some bev ↦ checked U bev (f bev) c ])
    Guarded-buf none f e w = inl refl
    Guarded-buf (some bev) f e w = inr (bev, f bev, refl, e, w bev)

    nothing : Guarded (ok (c, false))
    nothing = inl refl

    pub send_pack-Guarded : (body : Option (List ℕ)) (len : ℕ) → Guarded (send_pack U body len c)
    unfolding send_pack
    send_pack-Guarded none len = Guarded-if (len == 0) nothing nothing
    send_pack-Guarded (some bytes) len = Guarded-if (len == 0) nothing (
        Guarded-if c.m_is_connect
          (Guarded-if (ltb max_msg_data_len len) nothing (
            Guarded-if (is_zero c.m_fd) nothing (
              Guarded-buf c.m_buf_e (λ bev. write_frame bev len (take len bytes)) refl
                (λ bev d w. write_frame-At P bev len (take len bytes) d w))))
          nothing)

    pub send_data_pack-Guarded : (msg : MsgPack) → Guarded (send_data_pack U msg c)
    unfolding send_data_pack
    send_data_pack-Guarded msg =
        let body = take msg.len msg.data_bytes in
        Guarded-if c.m_is_connect
          (Guarded-if (ltb max_msg_data_len msg.len) nothing (
            Guarded-if (is_zero c.m_fd) nothing (
              Guarded-buf c.m_buf_e (λ bev. write_frame bev msg.len body) refl
                (λ bev d w. write_frame-At P bev msg.len body d w))))
          nothing

    pub send_data_raw-Guarded :
        (body : Option (List ℕ)) (len : ℤ) → Guarded (send_data_raw U body len c)
    unfolding send_data_raw
    send_data_raw-Guarded body len =
        Guarded-if c.m_is_connect (Guarded-if (is_zero c.m_fd) nothing (raw c.m_buf_e body refl))
          nothing
      where
        raw :
            (o : Option ℕ) (body : Option (List ℕ))
            → c.m_buf_e ≡ o
            → Guarded (elim o [
              | none ↦ ok (c, false)
              | some bev ↦ elim body [
                | none ↦ ok (c, false)
                | some bytes ↦ checked U bev (bufferevent_write bev (take (to_size len) bytes)) c
              ]
            ])
        raw none body e = nothing
        raw (some bev) none e = nothing
        raw (some bev) (some bytes) e = inr (
          bev,
          bufferevent_write bev (take (to_size len) bytes),
          refl,
          e,
          λ d w. bufferevent_write-At P bev (take (to_size len) bytes) d w,
        )

  module _ (U : Handlers E) (u : Respects P U) where
    pub Guarded-IsValid :
        (r : Outcome (Con E × Bool)) (c : Con E)
        → IsValid P c
        → Guarded U c r
        → Safe (IsValidResult P) r
    Guarded-IsValid r c v (inl e) = safe (c, false) e v
    Guarded-IsValid r c (idle a f k l alive q) (inr (bev, g, e, has, w)) = cc
    Guarded-IsValid r c (attached old b a e f alive q) (inr (bev, g, p, has, w)) =
        let same : old ≡ bev = cc in
        let at : At P bev c = (b, has, rw (← same) e, f, alive, q) in
        rw p (checked-IsValid P U u bev g c at (w c at))
