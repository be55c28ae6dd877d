-- ===== src/Examples/Tools.antt =====
-- Logging, the event base and the standard input.
use libevent_cpp.Prelude.{
  ℕ, ◌≡◌, ◌<◌, ◌⊎◌, refl, true, false, Option, none, some, List, [], ◌∷◌, ◌++◌, length, take,
}
use libevent_cpp.Prelude.Int.{ℤ}
use libevent_cpp.Prelude.Outcome.{Outcome, ok, fault, Fault}
use libevent_cpp.Log.{
  ll_debug, ll_error, Libc, DefaultLog, default_log_printf, line_format, too_long, until_zero,
  LogMgr, new_log_mgr,
}
use libevent_cpp.Log.Lines.{
  default_log_printf_cases, print, print_cond, flush, do_cmds, do_cmds_cases,
}
use libevent_cpp.Loop.{
  new_signal, new_base, set_fatal_callback, set_log_callback, dispatch, loopexit, free_base,
  add_signal, new_event_mgr, destroy_event_mgr, Do, do_dispatch, do_free, do_stop, do_signal,
  do_all, life_asked,
}
use libevent_cpp.Stdin.{Stdin, del}
use libevent_cpp.Examples.World.{Buffers, mail}

abbrev libc : Libc
libc = record { show = λ n. 49 ∷ []; time_str = []; vformat = λ f. f }

abbrev log_file : DefaultLog
log_file = record { m_log_lv = ll_debug; m_file = some []; m_is_std_out = true; std_out = [] }

default_log_printf_cases_example :
    let text = line_format libc ll_debug ll_error [] 1 [] (104 ∷ []) in
    let cut = until_zero (take 999 text) in
    (l : DefaultLog) × (default_log_printf libc ll_error [] 1 [] (104 ∷ []) log_file ≡ ok l)
    × (((length text < 1000)
          × (l.m_file ≡ some ([] ++ until_zero text))
          × (l.std_out ≡ [] ++ until_zero text ++ 10 ∷ []))
        ⊎ ((length text ≡ 1000)
            × (l.m_file ≡ some ([] ++ cut))
            × (l.std_out ≡ [] ++ cut ++ 10 ∷ []))
        ⊎ ((1000 < length text)
            × (l.m_file ≡ some ([] ++ cut ++ too_long libc (length text)))
            × (l.std_out ≡ [] ++ cut ++ 10 ∷ too_long libc (length text))))
default_log_printf_cases_example =
    default_log_printf_cases libc ll_error [] 1 [] (104 ∷ []) [] log_file refl refl

do_cmds_cases_example :
    ((false ≡ true)
      × (do_cmds (flush ∷ print ∷ print_cond ∷ []) new_log_mgr ≡ fault Fault.null_deref))
    ⊎ ((m : LogMgr) × (false ≡ false)
        × (do_cmds (flush ∷ print ∷ print_cond ∷ []) new_log_mgr ≡ ok m))
do_cmds_cases_example = do_cmds_cases (flush ∷ print ∷ print_cond ∷ [])

-- A signal, one for which no event could be made, the loop, and a release with a call after it.
abbrev told : List Do
told =
    do_signal true true 15
    ∷ do_signal false false 2
    ∷ do_dispatch
    ∷ do_stop true
    ∷ do_free
    ∷ do_dispatch
    ∷ []

life_asked_example :
    (destroy_event_mgr (do_all told (new_event_mgr (some 1)))).asked
    ≡ free_base
      ∷ loopexit
      ∷ dispatch
      ∷ new_signal 2
      ∷ add_signal 15
      ∷ new_signal 15
      ∷ new_base
      ∷ set_fatal_callback
      ∷ set_log_callback
      ∷ []
life_asked_example = life_asked (some 1) told

abbrev typed : Buffers
typed = record { received = 104 ∷ 105 ∷ []; waiting = [] }

abbrev console : Stdin mail
console = record {
  m_cb = some 7;
  m_buf_e = some 1;
  bevs = λ p. some typed;
  dying = λ p. none;
  user = [];
}

abbrev hear : ℕ → Option (List ℕ) → ℤ → Stdin mail → Outcome (Stdin mail)
hear cb none n s = ok s
hear cb (some xs) n s = ok (record s { user = s.user ++ xs ∷ [] })

abbrev quit : ℕ → Option (List ℕ) → ℤ → Stdin mail → Outcome (Stdin mail)
quit cb p n s = ok (del s)
