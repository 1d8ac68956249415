-- ===== src/Main/Options.antt =====
-- The loop over the options, where all arguments are options and their values.
use posix_printer_spooler.Prelude.{
  ℕ, zero, suc, ◌+◌, ◌<◌, ◌≡◌, ◌≢◌, ◌⊎◌, ◌∙◌, refl, ap, true, false, Option, none, some, List, [],
  ◌∷◌, arith, Option-cases, Bool-cases, inl, inr,
}
use posix_printer_spooler.Text.{Text}
use posix_printer_spooler.Platform.{Platform}
use posix_printer_spooler.Spooler.{Spooler}
use posix_printer_spooler.Tokens.{length}
use posix_printer_spooler.Cli.{Input, run_main}
use posix_printer_spooler.Main.{
  Flag, input_file, output_file, suppress_chatter, enable_tracking, unknown_flag, Arguments,
  Settings, default_settings, apply_flag, parse_options, main,
}

-- The options one after another, up to the first that exits.
unfoldable pub apply_flags : (A : Arguments) → List Flag → Settings → Option Settings
apply_flags A [] o = some o
apply_flags A (flag ∷ flags) o = elim (apply_flag A flag o) [
  | none ↦ none
  | some o' ↦ apply_flags A flags o'
]

-- An option that is known, and whose file, if it names one, can be opened.
abbrev pub CanApply : Arguments → Flag → Type 0
CanApply A (input_file path) = A.open_input path ≢ none
CanApply A (output_file path) = A.open_output path ≡ true
CanApply A suppress_chatter = Unit
CanApply A enable_tracking = Unit
CanApply A unknown_flag = ⊥

abbrev pub AllApply : Arguments → List Flag → Type 0
AllApply A [] = Unit
AllApply A (flag ∷ flags) = CanApply A flag × AllApply A flags

abbrev override : Option Text → Option Text → Option Text
override none earlier = earlier
override (some contents) earlier = some contents

-- The bytes of the file that an option names for input.
abbrev opened : Arguments → Flag → Option Text
opened A (input_file path) = A.open_input path
opened A _ = none

-- The bytes of the file of the last `-i`.
abbrev pub last_input : Arguments → List Flag → Option Text
last_input A [] = none
last_input A (flag ∷ flags) = override (last_input A flags) (opened A flag)

-- `getopt` gives these options, and no argument is left.
pub data Yields (A : Arguments) : A.Args → List Flag → Type 0 where
  at_end : (a : A.Args) → A.in_range a ≡ false → Yields A a []
  no_more :
      (a a' : A.Args)
      → A.in_range a ≡ true
      → A.getopt a ≡ (none, a')
      → A.in_range a' ≡ false
      → Yields A a []
  option :
      (a a' : A.Args) (flag : Flag) (flags : List Flag)
      → A.in_range a ≡ true
      → A.getopt a ≡ (some flag, a')
      → Yields A a' flags
      → Yields A a (flag ∷ flags)

module _ (A : Arguments) where
  -- The two parts of a result of `getopt`.
  fst : {r r' : Option Flag × A.Args} → r ≡ r' → r.0 ≡ r'.0
  fst e = ap (λ (r : Option Flag × A.Args). r.0) e

  snd : {r r' : Option Flag × A.Args} → r ≡ r' → r.1 ≡ r'.1
  snd e = ap (λ (r : Option Flag × A.Args). r.1) e

  parse_ends :
      (fuel : ℕ) (a : A.Args) (o : Settings)
      → A.in_range a ≡ false
      → parse_options A (suc fuel) a o ≡ some (some o)
  unfolding parse_options
  parse_ends fuel a o h = rw (parse_options, h) refl

  pub parse_stays :
      (fuel : ℕ) (a a' : A.Args) (o : Settings)
      → A.in_range a ≡ true
      → A.getopt a ≡ (none, a')
      → parse_options A (suc fuel) a o ≡ parse_options A fuel a' o
  unfolding parse_options
  parse_stays fuel a a' o h e =
      rw (parse_options, h, fst e) (ap (λ r. parse_options A fuel r o) (snd e))

  pub parse_exits :
      (fuel : ℕ) (a a' : A.Args) (flag : Flag) (o : Settings)
      → A.in_range a ≡ true
      → A.getopt a ≡ (some flag, a')
      → apply_flag A flag o ≡ none
      → parse_options A (suc fuel) a o ≡ some none
  unfolding parse_options
  parse_exits fuel a a' flag o h e n = rw (parse_options, h, fst e, n) refl

  pub parse_goes_on :
      (fuel : ℕ) (a a' : A.Args) (flag : Flag) (o o' : Settings)
      → A.in_range a ≡ true
      → A.getopt a ≡ (some flag, a')
      → apply_flag A flag o ≡ some o'
      → parse_options A (suc fuel) a o ≡ parse_options A fuel a' o'
  unfolding parse_options
  parse_goes_on fuel a a' flag o o' h e n =
      rw (parse_options, h, fst e, n) (ap (λ r. parse_options A fuel r o') (snd e))

  -- Where every argument is an option or its value, the loop over the options ends within one round
  -- more than there are options, with what the options give one after another: the settings, or the
  -- exit that the first bad option or unreadable file causes.
  pub parse_options-returns :
      (fuel : ℕ) (a : A.Args) (flags : List Flag) (o : Settings)
      → Yields A a flags
      → length flags + 1 < fuel
      → parse_options A fuel a o ≡ some (apply_flags A flags o)
  unfolding apply_flags
  parse_options-returns zero a flags o y h = absurd (omega arith)
  parse_options-returns (suc fuel) a [] o (at_end _ out) h = parse_ends fuel a o out
  parse_options-returns (suc zero) a [] o (no_more _ a' in_range e out) h = absurd (omega arith)
  parse_options-returns (suc (suc fuel)) a [] o (no_more _ a' in_range e out) h =
      parse_stays (suc fuel) a a' o in_range e ∙ parse_ends fuel a' o out
  parse_options-returns (suc fuel) a (flag ∷ flags) o (option _ a' _ _ in_range e y) h =
      elim (Option-cases (apply_flag A flag o)) [
        | inl bad ↦ parse_exits fuel a a' flag o in_range e bad ∙ rw (apply_flags, bad) refl
        | inr (o', good) ↦
            parse_goes_on fuel a a' flag o o' in_range e good
            ∙ parse_options-returns fuel a' flags o' y (omega arith)
            ∙ rw (apply_flags, good) refl
      ]

  override-none : (x : Option Text) → override x none ≡ x
  override-none none = refl
  override-none (some c) = refl

  override_assoc : (x y z : Option Text) → override x (override y z) ≡ override (override x y) z
  override_assoc none y z = refl
  override_assoc (some c) y z = refl

  apply_flag_cases :
      (flag : Flag) (o : Settings)
      → (CanApply A flag
          × (o' : Settings) × (apply_flag A flag o ≡ some o')
          × (o'.in_file ≡ override (opened A flag) o.in_file))
        ⊎ ((¬ CanApply A flag) × (apply_flag A flag o ≡ none))
  unfolding apply_flag
  apply_flag_cases (input_file path) o = elim (Option-cases (A.open_input path)) [
    | inl missing ↦ inr ((λ can. can missing), rw (apply_flag, missing) refl)
    | inr (contents, found) ↦ inl (
      (λ e. ground (arith, found, e)),
      record o { in_file = some contents },
      rw (apply_flag, found) refl,
      rw found refl,
    )
  ]
  apply_flag_cases (output_file path) o = elim (Bool-cases (A.open_output path)) [
    | inl can ↦ inl (can, record o { out_file = some path }, rw (apply_flag, can) refl, refl)
    | inr cannot ↦ inr ((λ can. ground (arith, can, cannot)), rw (apply_flag, cannot) refl)
  ]
  apply_flag_cases suppress_chatter o =
      inl (tt, record o { sf_suppress_chatter = true }, refl, refl)
  apply_flag_cases enable_tracking o = inl (tt, record o { sf_enable_tracking = true }, refl, refl)
  apply_flag_cases unknown_flag o = inr ((λ can. can), refl)

  apply_flags_cases :
      (flags : List Flag) (o : Settings)
      → (AllApply A flags
          × (o' : Settings) × (apply_flags A flags o ≡ some o')
          × (o'.in_file ≡ override (last_input A flags) o.in_file))
        ⊎ ((¬ AllApply A flags) × (apply_flags A flags o ≡ none))
  unfolding apply_flags
  apply_flags_cases [] o = inl (tt, o, refl, refl)
  apply_flags_cases (flag ∷ flags) o = elim (apply_flag_cases flag o) [
    | inr (cannot, bad) ↦ inr ((λ all. cannot all.0), rw (apply_flags, bad) refl)
    | inl (can, o₁, good, file) ↦ elim (apply_flags_cases flags o₁) [
      | inr (cannot, bad) ↦ inr ((λ all. cannot all.1), rw (apply_flags, good) bad)
      | inl (all, o₂, ok, file') ↦ inl (
        (can, all),
        o₂,
        rw (apply_flags, good) ok,
        file'
            ∙ ap (override (last_input A flags)) file
            ∙ override_assoc (last_input A flags) (opened A flag) o.in_file,
      )
    ]
  ]

  -- Where every argument is an option or its value, `main` returns. Either each option is known and
  -- each file that one names can be opened: then it returns with success, and in the state after the
  -- run on the file of the last `-i`, if there is one, and on the user's inputs. Or an option is
  -- unknown, or a file cannot be opened: then it returns with a failure, and the state is unchanged.
  pub main-returns :
      {P : Platform} (fuel : ℕ) (a : A.Args) (flags : List Flag) (inputs : List Input)
      (s : Spooler P)
      → Yields A a flags
      → length flags + 1 < fuel
      → (AllApply A flags
          × (main A fuel a inputs s ≡ some (true, run_main (last_input A flags) inputs s)))
        ⊎ ((¬ AllApply A flags) × (main A fuel a inputs s ≡ some (false, s)))
  unfolding main
  main-returns fuel a flags inputs s y h =
      let parsed = parse_options-returns fuel a flags default_settings y h in
      elim (apply_flags_cases flags default_settings) [
        | inr (cannot, bad) ↦ inr (cannot, rw (main, parsed, bad) refl)
        | inl (all, o, good, file) ↦ inl (
          all,
          rw (main, parsed, good)
              (ap (λ f. some (true, run_main f inputs s))
                (file ∙ override-none (last_input A flags))),
        )
      ]
