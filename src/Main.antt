-- ===== src/Main.antt =====
-- src/main.c: the options, and `main`. `getopt` is a parameter: `Args` is the argument vector with
-- the static state of `getopt`, from which its results and `optind` follow.
pub mod Options
pub mod Operands
use posix_printer_spooler.Prelude.{
  ℕ, zero, suc, Bool, true, false, Option, none, some, List, [], ◌∷◌, if◌then◌else◌,
}
use posix_printer_spooler.Text.{Text}
use posix_printer_spooler.Platform.{Platform}
use posix_printer_spooler.Spooler.{Spooler}
use posix_printer_spooler.Cli.{Input, run_main}

-- What `getopt(argc, argv, "i:o:qt")` returns beside -1, with `optarg` where the option has one.
pub data Flag : Type 0 where
  input_file output_file : Text → Flag
  suppress_chatter enable_tracking unknown_flag : Flag

pub record Arguments : Type 1 where
  pub Args : Type 0
  -- `optind < argc`
  pub in_range : Args → Bool
  -- The next option, or none for -1.
  pub getopt : Args → Option Flag × Args
  -- `fopen(path, "r")` with the bytes of the file, and whether `fopen(path, "w")` gives a file.
  pub open_input : Text → Option Text
  pub open_output : Text → Bool

-- The variables that the options set; `in` is the contents of the file, and `out` is a path where it
-- is not `stdout`.
pub record Settings : Type 0 where
  pub in_file : Option Text
  pub out_file : Option Text
  pub sf_suppress_chatter : Bool
  pub sf_enable_tracking : Bool

abbrev pub default_settings : Settings
default_settings = record {
  in_file = none;
  out_file = none;
  sf_suppress_chatter = false;
  sf_enable_tracking = false;
}

module _ (A : Arguments) where
  -- The `switch` on one option: none where it exits with EXIT_FAILURE.
  unfoldable pub apply_flag : Flag → Settings → Option Settings
  apply_flag (input_file path) o = elim (A.open_input path) [
    | none ↦ none
    | some contents ↦ some (record o { in_file = some contents })
  ]
  apply_flag (output_file path) o =
      if A.open_output path then some (record o { out_file = some path }) else none
  apply_flag suppress_chatter o = some (record o { sf_suppress_chatter = true })
  apply_flag enable_tracking o = some (record o { sf_enable_tracking = true })
  apply_flag unknown_flag o = none

  -- The loop over the options: none where the fuel runs out, and inside, none where it exits.
  unfoldable pub parse_options : ℕ → A.Args → Settings → Option (Option Settings)
  unfolding apply_flag
  parse_options zero a o = none
  parse_options (suc fuel) a o = elim (A.in_range a) [
    | false ↦ some (some o)
    | true ↦ elim (A.getopt a).0 [
      | none ↦ parse_options fuel (A.getopt a).1 o
      | some flag ↦ elim (apply_flag flag o) [
        | none ↦ some none
        | some o' ↦ parse_options fuel (A.getopt a).1 o'
      ]
    ]
  ]

  -- `main`: its exit status, true for EXIT_SUCCESS, and the state that it leaves.
  unfoldable pub main :
      {P : Platform} → ℕ → A.Args → List Input → Spooler P → Option (Bool × Spooler P)
  unfolding parse_options
  main fuel a inputs s = elim (parse_options fuel a default_settings) [
    | none ↦ none
    | some none ↦ some (false, s)
    | some (some o) ↦ some (true, run_main o.in_file inputs s)
  ]
