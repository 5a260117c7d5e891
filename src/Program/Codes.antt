-- ===== src/Program/Codes.antt =====
-- The exit codes of the program, and its subcommands.
use extreme_s.Prelude.{
  ℕ, ◌≡◌, ◌≤◌, refl, ◌⊎◌, inl, inr, false, ◌||◌, List, [], ◌∷◌, ◌++◌, Option, none, some, arith,
  Str, codes, ltb, map, is_empty, Outcome, ok, fail, es3_error, std_error, null_pointer, Bool-cases,
  Option-cases, ap, append-nil, ◌∙◌,
}
use extreme_s.Prelude.Dict.{Dict, lookup}
use extreme_s.Agenda.{Agenda}
use extreme_s.Program.{
  Tuning, CommandLine, Config, unreadable, incomplete, configured, returns, aborts, Handler, ending,
  dispatch, help_on, run_command, main_program, tuned_agenda, is_command, subcommands_parser,
}

ending-zero : (m : Outcome ℕ) → ending m ≡ returns 0 → m ≡ ok 0
unfolding ending
ending-zero (ok code) e = ground arith
ending-zero (fail (es3_error level)) e = absurd (ground arith)
ending-zero (fail std_error) e = absurd (ground arith)
ending-zero (fail null_pointer) e = cc

help_on-code :
    (commands : Dict Handler) (name : Str)
    → (help_on commands name ≡ returns 1) ⊎ (help_on commands name ≡ aborts)
unfolding help_on
help_on-code commands [] = inl refl
help_on-code commands (c ∷ name) = ground arith

dispatch-zero :
    (commands : Dict Handler) (name : Str) (ag : Agenda) (params : List Str)
    → dispatch commands name ag params ≡ ok 0
    → (handler : Handler) × (lookup name commands ≡ some handler) × (handler ag params false ≡ ok 0)
unfolding dispatch
dispatch-zero commands name ag params e = elim (Option-cases (lookup name commands)) [
  | inl unknown ↦ absurd (refused (rw (dispatch, unknown) at e))
  | inr (handler, known) ↦ (handler, known, rw (dispatch, known) at e)
]
  where
    refused : ◌≡◌ {A = Outcome ℕ} (fail std_error) (ok 0) → ⊥
    refused g = cc

run_command-zero :
    (processors : ℕ) (commands : Dict Handler) (line : CommandLine) (config : Config)
    → run_command processors commands line config ≡ returns 0
    → (t : Tuning) × (handler : Handler) × (config ≡ configured t)
      × (lookup line.cur_subcommand commands ≡ some handler)
      × (handler (tuned_agenda processors t) line.cur_sub_params false ≡ ok 0)
unfolding run_command
run_command-zero processors commands line unreadable e = absurd (ground arith)
run_command-zero processors commands line incomplete e = absurd (ground arith)
run_command-zero processors commands line (configured t) e =
    let (handler, known, zero_code) =
      dispatch-zero commands line.cur_subcommand (tuned_agenda processors t) line.cur_sub_params
        (ending-zero _ e) in
    (t, handler, refl, known, zero_code)

-- The program returns 0 only if the command line, which has an argument, and the configuration were
-- taken, no help was asked for, a command was named, and the handler of that command, called with the
-- agenda of the options, returned 0.
pub main_program-zero :
    (processors : ℕ) (commands : Dict Handler) (command_line : Option CommandLine) (config : Config)
    → main_program processors commands command_line config ≡ returns 0
    → (line : CommandLine) × (t : Tuning) × (handler : Handler) × (command_line ≡ some line)
      × (2 ≤ line.argc)
      × (line.help ≡ false)
      × (is_empty line.cur_subcommand ≡ false)
      × (config ≡ configured t)
      × (lookup line.cur_subcommand commands ≡ some handler)
      × (handler (tuned_agenda processors t) line.cur_sub_params false ≡ ok 0)
unfolding main_program run_command dispatch
main_program-zero processors commands none config e = absurd (ground arith)
main_program-zero processors commands (some line) config e =
    elim (Bool-cases (ltb line.argc 2 || line.help)) [
      | inl asked ↦ elim (help_on-code commands line.cur_subcommand) [
        | inl one ↦ let same : returns 1 ≡ returns 0 = rw (asked, one) at e in absurd (ground arith)
        | inr lost ↦ let same : aborts ≡ returns 0 = rw (asked, lost) at e in absurd (ground arith)
      ]
      | inr plain ↦ elim (Bool-cases (is_empty line.cur_subcommand)) [
        | inl no_command ↦
            let same : returns 2 ≡ returns 0 = rw (plain, no_command) at e in absurd (ground arith)
        | inr named ↦
            let (t, handler, taken, known, zero_code) =
              run_command-zero processors commands line config (rw (plain, named) at e) in
            (line, t, handler, refl, ground arith, ground arith, named, taken, known, zero_code)
      ]
    ]

params-map :
    (rest : List Str)
    → map (λ (o : Str × Str). o.1) (map (λ p. (codes "subcommand_params", p)) rest) ≡ rest
params-map [] = refl
params-map (p ∷ rest) = ap (λ ps. p ∷ ps) (params-map rest)

-- The parser of subcommands loses no argument: the values of its options and what it leaves are the
-- arguments in their order, and it leaves either all or none of them.
pub subcommands_parser-keeps :
    (args subcommands : List Str)
    → let (opts, left) = subcommands_parser args subcommands in
      (map (λ (o : Str × Str). o.1) opts ++ left ≡ args) × ((opts ≡ []) ⊎ (left ≡ []))
unfolding subcommands_parser
subcommands_parser-keeps [] subcommands = (refl, inl refl)
subcommands_parser-keeps (name ∷ rest) subcommands =
    elim (Bool-cases (is_command name subcommands)) [
      | inl known ↦
          (rw known (ap (λ ps. name ∷ ps) (append-nil _ ∙ params-map rest)), inr (rw known refl))
      | inr other ↦ (rw other refl, inl (rw other refl))
    ]
