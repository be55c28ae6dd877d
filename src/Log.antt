-- ===== src/Log.antt =====
-- src/log_file.cc and include/log_file.h: DefaultLog, which writes lines to a file and to the
-- standard output, and LogMgr, which passes calls on to a printer. Texts are lists of bytes; what
-- the C library makes of a format and its arguments is a parameter.
pub mod Lines
use libevent_cpp.Prelude.{
  ◌==◌, ℕ, Bool, true, false, Option, none, some, List, [], ◌∷◌, ◌++◌, if◌then◌else◌, leb, ltb,
  length, take,
}
use libevent_cpp.Prelude.Outcome.{Outcome, ok, fault, Fault, ◌>>=◌}

pub data LogLv : Type 0 where
  ll_fatal ll_error ll_warn ll_info ll_debug ll_trace : LogLv

-- The enumeration as a number.
abbrev pub lv_number : LogLv → ℕ
lv_number ll_fatal = 0
lv_number ll_error = 1
lv_number ll_warn = 2
lv_number ll_info = 3
lv_number ll_debug = 4
lv_number ll_trace = 5

-- "[fatal] ", "[error] ", "[warn]  ", "[info]  ", "[debug] " and "[trace]   ".
unfoldable pub get_log_level_str : LogLv → List ℕ
get_log_level_str ll_fatal = 91 ∷ 102 ∷ 97 ∷ 116 ∷ 97 ∷ 108 ∷ 93 ∷ 32 ∷ []
get_log_level_str ll_error = 91 ∷ 101 ∷ 114 ∷ 114 ∷ 111 ∷ 114 ∷ 93 ∷ 32 ∷ []
get_log_level_str ll_warn = 91 ∷ 119 ∷ 97 ∷ 114 ∷ 110 ∷ 93 ∷ 32 ∷ 32 ∷ []
get_log_level_str ll_info = 91 ∷ 105 ∷ 110 ∷ 102 ∷ 111 ∷ 93 ∷ 32 ∷ 32 ∷ []
get_log_level_str ll_debug = 91 ∷ 100 ∷ 101 ∷ 98 ∷ 117 ∷ 103 ∷ 93 ∷ 32 ∷ []
get_log_level_str ll_trace = 91 ∷ 116 ∷ 114 ∷ 97 ∷ 99 ∷ 101 ∷ 93 ∷ 32 ∷ 32 ∷ 32 ∷ []

-- What the C library gives: `%d` of a number, the local time as text, and a format filled in with
-- the arguments of the call.
pub record Libc : Type 0 where
  pub show : ℕ → List ℕ
  pub time_str : List ℕ
  pub vformat : List ℕ → List ℕ

-- The file's content, `none` where fopen failed, and what went to the standard output.
pub record DefaultLog : Type 0 where
  pub m_log_lv : LogLv
  pub m_file : Option (List ℕ)
  pub m_is_std_out : Bool
  pub std_out : List ℕ

unfoldable new_default_log : Option (List ℕ) → DefaultLog
new_default_log file = record {
  m_log_lv = ll_debug;
  m_file = file;
  m_is_std_out = true;
  std_out = [];
}

unfoldable set_show_lv : LogLv → DefaultLog → DefaultLog
set_show_lv lv l = record l { m_log_lv = lv }

unfoldable set_std_out : Bool → DefaultLog → DefaultLog
set_std_out is_std_out l = record l { m_is_std_out = is_std_out }

-- The place in the source, "  --file:line fun"; ten characters hold nine and the zero.
unfoldable pub place : Libc → List ℕ → ℕ → List ℕ → List ℕ
place libc file line fun = 32 ∷ 32 ∷ 45 ∷ 45 ∷ (file ++ 58 ∷ (take 9 (libc.show line) ++ 32 ∷ fun))

-- The format of the whole line.
unfoldable pub line_format : Libc → LogLv → LogLv → List ℕ → ℕ → List ℕ → List ℕ → List ℕ
line_format libc log_lv lv file line fun pattern_str =
    libc.time_str
    ++ 32
      ∷ (get_log_level_str lv
          ++ pattern_str
          ++ (if leb (lv_number lv) (lv_number log_lv) then place libc file line fun else [])
          ++ 10 ∷ [])

-- "....[str too long,len=", the number, "]" and a newline.
unfoldable pub too_long : Libc → ℕ → List ℕ
too_long libc r =
    46
    ∷ 46
    ∷ 46
    ∷ 46
    ∷ 91
    ∷ 115
    ∷ 116
    ∷ 114
    ∷ 32
    ∷ 116
    ∷ 111
    ∷ 111
    ∷ 32
    ∷ 108
    ∷ 111
    ∷ 110
    ∷ 103
    ∷ 44
    ∷ 108
    ∷ 101
    ∷ 110
    ∷ 61
    ∷ (libc.show r ++ 93 ∷ 10 ∷ [])

-- A C string in memory, up to its first zero byte: what fputs and puts write.
unfoldable pub until_zero : List ℕ → List ℕ
until_zero [] = []
until_zero (x ∷ xs) = let rest = until_zero xs in if x == 0 then [] else x ∷ rest

-- Writing through the FILE pointer, with no test for null. vsnprintf returns the length of the whole
-- text, a zero byte that %c put into it included, and vfprintf writes it so.
unfoldable pub print_line : Libc → List ℕ → DefaultLog → Outcome DefaultLog
print_line libc s l = elim l.m_file [
  | none ↦ fault Fault.null_deref
  | some content ↦
      let text = libc.vformat s in
      if l.m_is_std_out
      then (let out_str = until_zero (take 999 text) in
          let extra = if ltb 1000 (length text) then too_long libc (length text) else [] in
          ok (record l {
            m_file = some (content ++ out_str ++ extra);
            std_out = l.std_out ++ out_str ++ 10 ∷ extra;
          }))
      else ok (record l { m_file = some (content ++ text) })
]

unfoldable pub default_log_printf :
    Libc → LogLv → List ℕ → ℕ → List ℕ → List ℕ → DefaultLog → Outcome DefaultLog
unfolding line_format print_line
default_log_printf libc lv file line fun pattern_str l =
    print_line libc (line_format libc l.m_log_lv lv file line fun pattern_str) l

-- A printer is known by a number, the default one by 0; `printed` and `flushed` are the printers
-- that were called, the last one first.
pub record LogMgr : Type 0 where
  pub m_iprinter : Option ℕ
  pub printed : List ℕ
  pub flushed : List ℕ

unfoldable pub new_log_mgr : LogMgr
new_log_mgr = record { m_iprinter = none; printed = []; flushed = [] }

unfoldable pub set_log_printer : ℕ → LogMgr → LogMgr
set_log_printer p m = record m { m_iprinter = some p }

unfoldable pub mgr_printf : LogMgr → LogMgr
mgr_printf m = elim m.m_iprinter [
  | none ↦ record m { m_iprinter = some 0; printed = 0 ∷ m.printed }
  | some p ↦ record m { printed = p ∷ m.printed }
]

-- PrintfCond calls the printer with no test for null.
unfoldable pub printf_cond : LogMgr → Outcome LogMgr
printf_cond m = elim m.m_iprinter [
  | none ↦ fault Fault.null_deref
  | some p ↦ ok (record m { printed = p ∷ m.printed })
]

unfoldable pub mgr_flush : LogMgr → LogMgr
mgr_flush m = elim m.m_iprinter [ none ↦ m | some p ↦ record m { flushed = p ∷ m.flushed } ]

-- ~LogMgr.
unfoldable destroy_log_mgr : LogMgr → LogMgr
unfolding mgr_flush
destroy_log_mgr m = mgr_flush m
