-- ===== src/Http/Drain.antt =====
-- The loops of src/http.cc that copy a buffer out piece by piece.
use libevent_cpp.Prelude.{
  ℕ, zero, suc, ◌<◌, ◌≡◌, refl, ap, sym, ◌∙◌, List, [], ◌∷◌, ◌++◌, arith, ◌==◌, ltb, if◌then◌else◌,
  length, take, drop, length-drop, length-take, take-append-drop, append_assoc, append-nil,
  Bool-cases, inl, inr, drop-nil,
}
use libevent_cpp.Prelude.Outcome.{Outcome, ok, out_of_fuel}
use libevent_cpp.Http.{Evbuffer}

module _ (B : Evbuffer) where
  -- `while (evbuffer_get_length(buf))`: pieces of `chunk` bytes are appended to `acc`.
  unfoldable pub drain_while_length : ℕ → ℕ → B.Buf → List ℕ → Outcome (List ℕ × B.Buf)
  drain_while_length zero chunk b acc = out_of_fuel
  drain_while_length (suc fuel) chunk b acc =
      let r = B.remove b chunk in
      let rest = drain_while_length fuel chunk r.1 (acc ++ r.0) in
      if B.get_length b == 0 then ok (acc, b) else rest

  -- `while ((nread = evbuffer_remove(…)) > 0)`.
  unfoldable pub drain_while_read : ℕ → ℕ → B.Buf → List ℕ → Outcome (List ℕ × B.Buf)
  drain_while_read zero chunk b acc = out_of_fuel
  drain_while_read (suc fuel) chunk b acc =
      let r = B.remove b chunk in
      let rest = drain_while_read fuel chunk r.1 (acc ++ r.0) in
      if ltb 0 (length r.0) then rest else ok (acc, r.1)

  piece : (acc xs : List ℕ) (n : ℕ) → (acc ++ take n xs) ++ drop n xs ≡ acc ++ xs
  piece acc xs n = append_assoc acc (take n xs) (drop n xs) ∙ ap (◌++◌ acc) (take-append-drop n xs)

  empty_of : (xs : List ℕ) → length xs ≡ 0 → xs ≡ []
  empty_of [] h = refl
  empty_of (x ∷ xs) h = absurd (omega arith)

  -- The loop that asks for the length ends, given more fuel than the buffer has bytes, with all that
  -- the buffer held behind what was there, and the buffer empty.
  pub drain_while_length_lem :
      (fuel chunk : ℕ) (b : B.Buf) (acc : List ℕ)
      → 0 < chunk
      → length (B.contents b) < fuel
      → (b' : B.Buf) × (drain_while_length fuel chunk b acc ≡ ok (acc ++ B.contents b, b'))
        × (B.contents b' ≡ [])
  unfolding drain_while_length
  drain_while_length_lem zero chunk b acc p h = absurd (omega arith)
  drain_while_length_lem (suc fuel) chunk b acc p h = elim (Bool-cases (B.get_length b == 0)) [
    | inl e ↦
        let none_left : B.contents b ≡ [] =
          empty_of (B.contents b) (ground (arith, B.get_length_lem b)) in
        (
          b,
          rw e (ap (λ xs. ok (xs, b)) (sym (append-nil acc) ∙ ap (◌++◌ acc) (sym none_left))),
          none_left,
        )
    | inr e ↦
        let r = B.remove b chunk in
        let (b', run, empty) = drain_while_length_lem fuel chunk r.1 (acc ++ r.0) p (
          ground (
            arith,
            B.get_length_lem b,
            ap length (B.contents-remove b chunk),
            length-drop chunk (B.contents b),
          )) in
        (
          b',
          rw e (
              run
              ∙ ap (λ xs. ok (xs, b'))
                  (rw (B.remove_lem b chunk, B.contents-remove b chunk)
                    (piece acc (B.contents b) chunk))),
          empty,
        )
  ]

  -- The loop that reads until nothing comes ends, given more fuel than the buffer has bytes, with
  -- all that the buffer held behind what was there, and the buffer empty.
  pub drain_while_read_lem :
      (fuel chunk : ℕ) (b : B.Buf) (acc : List ℕ)
      → 0 < chunk
      → length (B.contents b) < fuel
      → (b' : B.Buf) × (drain_while_read fuel chunk b acc ≡ ok (acc ++ B.contents b, b'))
        × (B.contents b' ≡ [])
  unfolding drain_while_read
  drain_while_read_lem zero chunk b acc p h = absurd (omega arith)
  drain_while_read_lem (suc fuel) chunk b acc p h =
      elim (Bool-cases (ltb 0 (length (B.remove b chunk).0))) [
        | inl e ↦
            let r = B.remove b chunk in
            let (b', run, empty) = drain_while_read_lem fuel chunk r.1 (acc ++ r.0) p (
              ground (
                arith,
                ap length (B.remove_lem b chunk),
                ap length (B.contents-remove b chunk),
                length-take chunk (B.contents b),
                length-drop chunk (B.contents b),
              )) in
            (
              b',
              rw e (
                  run
                  ∙ ap (λ xs. ok (xs, b'))
                      (rw (B.remove_lem b chunk, B.contents-remove b chunk)
                        (piece acc (B.contents b) chunk))),
              empty,
            )
        | inr e ↦
            let none_left : B.contents b ≡ [] = empty_of (B.contents b) (
              ground (arith, ap length (B.remove_lem b chunk), length-take chunk (B.contents b))) in
            (
              (B.remove b chunk).1,
              rw e (
                  ap (λ xs. ok (xs, (B.remove b chunk).1))
                    (sym (append-nil acc) ∙ ap (◌++◌ acc) (sym none_left))),
              B.contents-remove b chunk ∙ (rw none_left (drop-nil chunk)),
            )
      ]
