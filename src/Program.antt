-- ===== src/Program.antt =====
-- es3/main.cpp: the parser of subcommands, the tuning of the agenda and the exit codes. What Boost makes
-- of the command line, the configuration and the environment is an argument.
pub mod Tuned
pub mod Codes
mod Tests
use extreme_s.Prelude.{
  ℕ, zero, suc, ◌+◌, ◌*◌, Bool, true, false, ◌||◌, List, [], ◌∷◌, Option, none, some, Str, codes,
  str_eq, map, ltb, ◌==◌, if◌then◌else◌, Outcome, ok, fail, Failure, es3_error, std_error,
  null_pointer, is_empty,
}
use extreme_s.Prelude.Dict.{Dict, lookup}
use extreme_s.Agenda.{Agenda, create}

-- The `int` of an option.
pub data ℤ : Type 0 where
  pos : ℕ → ℤ
  negsuc : ℕ → ℤ

abbrev pub max_in_flight : ℕ
max_in_flight = 200

abbrev pub min_segment_size : ℕ
min_segment_size = 6 * 1024 * 1024

pub record Tuning : Type 0 where
  pub thread_num : ℤ
  pub io_threads : ℤ
  pub cpu_threads : ℤ
  pub segment_size : ℤ
  pub segments : ℤ

-- `if (x <= 0) x = other;`
pub or_default : ℕ → ℤ → ℕ
or_default other (pos n) = if n == 0 then other else n
or_default other (negsuc n) = other

pub in_flight : ℤ → ℕ
unfolding or_default
in_flight (pos n) = if ltb max_in_flight n then max_in_flight else or_default 40 (pos n)
in_flight (negsuc n) = 40

pub segment_bytes : ℤ → ℕ
segment_bytes (pos n) = if ltb n min_segment_size then min_segment_size else n
segment_bytes (negsuc n) = min_segment_size

-- The agenda for the number of processors, `sysconf(_SC_NPROCESSORS_ONLN)`.
pub tuned_agenda : ℕ → Tuning → Agenda
unfolding or_default in_flight segment_bytes
tuned_agenda processors t =
    create (or_default (processors * 6 + 40) t.thread_num)
      (or_default (processors + 2) t.cpu_threads) (or_default (processors * 2 + 2) t.io_threads)
      (segment_bytes t.segment_size) (in_flight t.segments)

-- `std::find`
is_command : Str → List Str → Bool
is_command name [] = false
is_command name (c ∷ cs) = if str_eq c name then true else is_command name cs

-- `subcommands_parser`: the options, with their keys, and the arguments that it leaves.
pub subcommands_parser : List Str → List Str → List (Str × Str) × List Str
unfolding is_command
subcommands_parser [] subcommands = ([], [])
subcommands_parser (name ∷ rest) subcommands =
    if is_command name subcommands
    then ((codes "subcommand", name) ∷ map (λ p. (codes "subcommand_params", p)) rest, [])
    else ([], name ∷ rest)

-- What Boost makes of the command line; an empty subcommand is none.
pub record CommandLine : Type 0 where
  pub argc : ℕ
  pub help : Bool
  pub cur_subcommand : Str
  pub cur_sub_params : List Str

-- The configuration: one that cannot be parsed, one without a required option, or the values.
pub data Config : Type 0 where
  unreadable : Config
  incomplete : Config
  configured : Tuning → Config

-- `main` returns a code, or an exception (or a null pointer) ends the process.
pub data Ending : Type 0 where
  returns : ℕ → Ending
  aborts : Ending

-- The last part of `main`: both kinds of exceptions give 8.
ending : Outcome ℕ → Ending
ending (ok code) = returns code
ending (fail (es3_error level)) = returns 8
ending (fail std_error) = returns 8
ending (fail null_pointer) = aborts

-- A handler, for the agenda, the parameters and whether help is asked for.
abbrev pub Handler : Type 0
Handler = Agenda → List Str → Bool → Outcome ℕ

-- `subcommands_map[name](...)`; an empty function throws an exception of the standard library.
pub dispatch : Dict Handler → Str → Agenda → List Str → Outcome ℕ
dispatch commands name ag params = elim (lookup name commands) [
  | none ↦ fail std_error
  | some handler ↦ handler ag params false
]

-- The text on a command; no handler of an unknown one, and the exception is not caught there.
help_on : Dict Handler → Str → Ending
help_on commands [] = returns 1
help_on commands (c ∷ name) = elim (lookup (c ∷ name) commands) [
  | none ↦ aborts
  | some h ↦ returns 1
]

run_command : ℕ → Dict Handler → CommandLine → Config → Ending
unfolding ending dispatch
run_command processors commands line unreadable = returns 2
run_command processors commands line incomplete = returns 1
run_command processors commands line (configured t) =
    ending (dispatch commands line.cur_subcommand (tuned_agenda processors t) line.cur_sub_params)

pub main_program : ℕ → Dict Handler → Option CommandLine → Config → Ending
unfolding help_on run_command
main_program processors commands none config = returns 2
main_program processors commands (some line) config =
    if ltb line.argc 2 || line.help
    then help_on commands line.cur_subcommand
    else if is_empty line.cur_subcommand
    then returns 2
    else run_command processors commands line config
