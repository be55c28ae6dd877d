-- ===== src/Log/Lines.antt =====
-- What DefaultLog writes, and when LogMgr reads through a null printer.
use libevent_cpp.Prelude.{
  ℕ, ◌<◌, ◌≡◌, refl, ◌⊎◌, inl, inr, Bool, true, false, Option, some, List, [], ◌∷◌, ◌++◌, arith,
  length, take, ◌∙◌, take_all, append-nil, ltb, ltb→lt, if◌then◌else◌, Bool-cases, ap,
}
use libevent_cpp.Prelude.Outcome.{Outcome, ok, fault, Fault, ◌>>=◌}
use libevent_cpp.Log.{
  LogLv, Libc, DefaultLog, line_format, too_long, until_zero, print_line, default_log_printf,
  LogMgr, new_log_mgr, set_log_printer, mgr_printf, printf_cond, mgr_flush,
}

both_not : (a b : ℕ) → ltb a b ≡ false → ltb b a ≡ false → b ≡ a
both_not a b e s = ground arith

-- The two writes of a line, put together.
written :
    (content out note text : List ℕ)
    → let extra : List ℕ = if ltb 1000 (length text) then note else [] in
      let line : List ℕ = until_zero (take 999 text) in
      let to_file : Option (List ℕ) = some (content ++ line ++ extra) in
      let to_out : List ℕ = out ++ line ++ 10 ∷ extra in
      ((length text < 1000)
        × (to_file ≡ some (content ++ until_zero text))
        × (to_out ≡ out ++ until_zero text ++ 10 ∷ []))
      ⊎ ((length text ≡ 1000)
          × (to_file ≡ some (content ++ line))
          × (to_out ≡ out ++ line ++ 10 ∷ []))
      ⊎ ((1000 < length text)
          × (to_file ≡ some (content ++ line ++ note))
          × (to_out ≡ out ++ line ++ 10 ∷ note))
written content out note text =
    let line : List ℕ = until_zero (take 999 text) in
    let file_with : Bool → Option (List ℕ) =
      λ b. some (content ++ line ++ (if b then note else [])) in
    let out_with : Bool → List ℕ = λ b. out ++ line ++ 10 ∷ (if b then note else []) in
    let no_note : file_with false ≡ some (content ++ line) =
      ap (λ (xs : List ℕ). some xs) (append-nil (content ++ line)) in
    elim (Bool-cases (ltb 1000 (length text))) [
      | inl e ↦ inr (inr (ltb→lt 1000 (length text) e, ap file_with e, ap out_with e))
      | inr e ↦ elim (Bool-cases (ltb (length text) 1000)) [
        | inl s ↦
            let short : length text < 1000 = ltb→lt (length text) 1000 s in
            let whole : line ≡ until_zero text = ap until_zero (take_all 999 text (omega arith)) in
            inl (
              short,
              ap file_with e ∙ no_note ∙ ap (λ (xs : List ℕ). some (content ++ xs)) whole,
              ap out_with e ∙ ap (λ xs. out ++ xs ++ 10 ∷ []) whole,
            )
        | inr s ↦
            inr (inl (both_not 1000 (length text) e s, ap file_with e ∙ no_note, ap out_with e))
      ]
    ]

-- With the standard output on and the file open, a line is written to both up to its first zero
-- byte, which a %c can have put there: one of at most 999 bytes whole; one of exactly 1000 without
-- its last byte, and with no word of it; a longer one as far as its first 999 bytes, followed by a
-- note of its length.
pub default_log_printf_cases :
    (libc : Libc) (lv : LogLv) (file : List ℕ) (line : ℕ) (fun pattern_str content : List ℕ)
    (l : DefaultLog)
    → l.m_is_std_out ≡ true
    → l.m_file ≡ some content
    → let text = libc.vformat (line_format libc l.m_log_lv lv file line fun pattern_str) in
      let cut = until_zero (take 999 text) in
      (l' : DefaultLog) × (default_log_printf libc lv file line fun pattern_str l ≡ ok l')
      × (((length text < 1000)
            × (l'.m_file ≡ some (content ++ until_zero text))
            × (l'.std_out ≡ l.std_out ++ until_zero text ++ 10 ∷ []))
          ⊎ ((length text ≡ 1000)
              × (l'.m_file ≡ some (content ++ cut))
              × (l'.std_out ≡ l.std_out ++ cut ++ 10 ∷ []))
          ⊎ ((1000 < length text)
              × (l'.m_file ≡ some (content ++ cut ++ too_long libc (length text)))
              × (l'.std_out ≡ l.std_out ++ cut ++ 10 ∷ too_long libc (length text))))
unfolding default_log_printf print_line
default_log_printf_cases libc lv file line fun pattern_str content l o f =
    let text = libc.vformat (line_format libc l.m_log_lv lv file line fun pattern_str) in
    let cut = until_zero (take 999 text) in
    let extra : List ℕ = if ltb 1000 (length text) then too_long libc (length text) else [] in
    (
      record l {
        m_file = some (content ++ cut ++ extra);
        std_out = l.std_out ++ cut ++ 10 ∷ extra;
      },
      ground (arith, o, f),
      written content l.std_out (too_long libc (length text)) text,
    )

-- Calls of the manager.
pub data Cmd : Type 0 where
  set : ℕ → Cmd
  print print_cond flush : Cmd

abbrev pub do_cmd : Cmd → LogMgr → Outcome LogMgr
do_cmd (set p) m = ok (set_log_printer p m)
do_cmd print m = ok (mgr_printf m)
do_cmd print_cond m = printf_cond m
do_cmd flush m = ok (mgr_flush m)

unfoldable pub do_cmds : List Cmd → LogMgr → Outcome LogMgr
do_cmds [] m = ok m
do_cmds (c ∷ cs) m = do_cmd c m >>= λ m'. do_cmds cs m'

-- Whether a PrintfCond comes before every SetLogPrinter and every Printf.
abbrev pub early_cond : List Cmd → Bool
early_cond [] = false
early_cond (set p ∷ cs) = false
early_cond (print ∷ cs) = false
early_cond (print_cond ∷ cs) = true
early_cond (flush ∷ cs) = early_cond cs

printf_cond-some :
    (m : LogMgr) (p : ℕ)
    → m.m_iprinter ≡ some p
    → printf_cond m ≡ ok (record m { printed = p ∷ m.printed })
unfolding printf_cond
printf_cond-some m p e = ground (arith, e)

ready :
    (cs : List Cmd) (m : LogMgr) (p : ℕ)
    → m.m_iprinter ≡ some p
    → (m' : LogMgr) × (do_cmds cs m ≡ ok m')
unfolding do_cmds set_log_printer mgr_printf mgr_flush
ready [] m p e = (m, refl)
ready (set q ∷ cs) m p e = ready cs (set_log_printer q m) q refl
ready (print ∷ cs) m p e = ready cs (mgr_printf m) p (ground (arith, e))
ready (print_cond ∷ cs) m p e =
    let (m', run) = ready cs (record m { printed = p ∷ m.printed }) p e in
    (m', rw (printf_cond-some m p e) run)
ready (flush ∷ cs) m p e = ready cs (mgr_flush m) p (ground (arith, e))

-- From its construction on, the manager reads through a null printer exactly if a PrintfCond comes
-- before every SetLogPrinter and every Printf; in all other histories every call returns.
pub do_cmds_cases :
    (cs : List Cmd)
    → ((early_cond cs ≡ true) × (do_cmds cs new_log_mgr ≡ fault Fault.null_deref))
      ⊎ ((m : LogMgr) × (early_cond cs ≡ false) × (do_cmds cs new_log_mgr ≡ ok m))
unfolding do_cmds new_log_mgr set_log_printer mgr_printf printf_cond mgr_flush
do_cmds_cases [] = inr (new_log_mgr, refl, refl)
do_cmds_cases (set p ∷ cs) =
    let (m, run) = ready cs (set_log_printer p new_log_mgr) p refl in inr (m, refl, run)
do_cmds_cases (print ∷ cs) =
    let (m, run) = ready cs (mgr_printf new_log_mgr) 0 refl in inr (m, refl, run)
do_cmds_cases (print_cond ∷ cs) = inl (refl, refl)
do_cmds_cases (flush ∷ cs) = do_cmds_cases cs
