-- ===== src/Tests/Pipes.antt =====
-- A concrete kernel, and a pipeline of two conversions on it.
use mathlib.Core.Path.{subst}
use posix_printer_spooler.Prelude.{
  ℕ, ◌≡◌, refl, ◌+◌, ◌*◌, ◌==◌, if◌then◌else◌, true, false, Option, none, some, List, [], ◌∷◌,
  arith, Option-cases, inl, inr,
}
use posix_printer_spooler.Text.{text}
use posix_printer_spooler.Platform.{Conversion}
use posix_printer_spooler.Pipeline.{
  Channel, input, printer, reader, writer, inherited, Kernel, Opens, IsPosix, Work, Stage, stages,
  pipeline_master, launch_stages, wait_stages,
}
use posix_printer_spooler.Pipeline.Rounds.{IsChain}
use posix_printer_spooler.Pipeline.Master.{pipeline_master-IsChain}
use posix_printer_spooler.Pipeline.Status.{wait_stages-succeeds_iff}
use posix_printer_spooler.Tests.States.{pdf, ps}

abbrev Table : Type 0
Table = ℕ → Option Channel

abbrev put : ℕ → Option Channel → Table → Table
put fd v t k = if k == fd then v else t k

-- `fd`, if it is free.
abbrev open_at : ℕ → Channel → Table → Option (ℕ × Table)
open_at fd ch t = elim (t fd) [ none ↦ some (fd, put fd (some ch) t) | some used ↦ none ]

abbrev pipe_at : ℕ → Table → Option (ℕ × ℕ × Table)
pipe_at i t = elim (t (3 + 2 * i)) [
  | some used ↦ none
  | none ↦ elim (t (4 + 2 * i)) [
    | some used ↦ none
    | none ↦ some (
      3 + 2 * i,
      4 + 2 * i,
      put (4 + 2 * i) (some (writer i)) (put (3 + 2 * i) (some (reader i)) t),
    )
  ]
]

-- From a closed descriptor nothing changes.
abbrev dup2_at : ℕ → ℕ → Table → Table
dup2_at old new t = elim (t old) [ none ↦ t | some ch ↦ put new (some ch) t ]

abbrev toy_kernel : Kernel
toy_kernel = record {
  Files = Table;
  get = λ fd t. t fd;
  close = λ fd t. put fd none t;
  dup2 = dup2_at;
  pipe = pipe_at;
  open_read = λ path t. open_at 100 (input path) t;
  connect = λ name type t. open_at 101 (printer name type) t;
  forks = λ i. true;
}

put-Opens :
    (fd : ℕ) (ch : Channel) (t : Table)
    → t fd ≡ none
    → Opens toy_kernel fd ch t (put fd (some ch) t)
put-Opens fd ch t free = record {
  fresh = free;
  now = ground arith;
  others = λ k ne. ground (arith, ne);
}

abbrev IsOpening : Channel → Table → Option (ℕ × Table) → Type 0
IsOpening ch t none = Unit
IsOpening ch t (some (fd, t')) = Opens toy_kernel fd ch t t'

open_at-IsOpening : (fd : ℕ) (ch : Channel) (t : Table) → IsOpening ch t (open_at fd ch t)
open_at-IsOpening fd ch t = elim (Option-cases (t fd)) [
  | inl free ↦ rw (open_at, free) (put-Opens fd ch t free)
  | inr (used, taken) ↦ rw (open_at, taken) tt
]

abbrev IsPiping : ℕ → Table → Option (ℕ × ℕ × Table) → Type 0
IsPiping i t none = Unit
IsPiping i t (some (r, w, t')) =
    (mid : Table) × Opens toy_kernel r (reader i) t mid × Opens toy_kernel w (writer i) mid t'

pipe_at-IsPiping : (i : ℕ) (t : Table) → IsPiping i t (pipe_at i t)
pipe_at-IsPiping i t = elim (Option-cases (t (3 + 2 * i))) [
  | inr (used, taken) ↦ rw (pipe_at, taken) tt
  | inl free ↦ elim (Option-cases (t (4 + 2 * i))) [
    | inr (used, taken) ↦ rw (pipe_at, free, taken) tt
    | inl free' ↦
        rw (pipe_at, free, free')
          (
            put (3 + 2 * i) (some (reader i)) t,
            put-Opens (3 + 2 * i) (reader i) t free,
            put-Opens (4 + 2 * i) (writer i) (put (3 + 2 * i) (some (reader i)) t)
                (ground (arith, free')),
          )
  ]
]

toy_kernel-IsPosix : IsPosix toy_kernel
toy_kernel-IsPosix = record {
  get-close = λ fd t. ground arith;
  close-others = λ fd k t ne. ground (arith, ne);
  get-dup2 = λ old new ch t e. rw (dup2_at, e) (ground arith);
  dup2-others = λ old new k t ne. ground (arith, ne);
  pipe-opens = λ i r w t t' e. subst (IsPiping i t) e (pipe_at-IsPiping i t);
  open-opens =
      λ path fd t t' e. subst (IsOpening (input path) t) e (open_at-IsOpening 100 (input path) t);
  connect-opens = λ name type fd t t' e.
      subst (IsOpening (printer name type) t) e (open_at-IsOpening 101 (printer name type) t);
}

abbrev spooler_files : Table
spooler_files k = if k == 0 then some (inherited 0) else if k == 1 then some (inherited 1) else none

abbrev work : Work
work = record { input_file_path = some (text "a.pdf"); target = some (text "alice", text "txt") }

abbrev two_conversions : Option (List Conversion)
two_conversions = some (
    record { from = pdf; to = ps; cmd_and_args = text "pdf2ps" ∷ [] }
    ∷ record { from = ps; to = pdf; cmd_and_args = text "ps2txt" ∷ [] }
    ∷ [])

abbrev launched : List (Stage toy_kernel) × Option Table
launched = pipeline_master toy_kernel work two_conversions spooler_files

abbrev last_table : Table
last_table = elim launched.1 [ none ↦ spooler_files | some t ↦ t ]

pipeline_master-IsChain_example :
    IsChain toy_kernel spooler_files work
      (input (text "a.pdf"))
      0
      (stages two_conversions)
      launched.0
    × ((k : ℕ) → last_table k ≡ spooler_files k)
unfolding pipeline_master launch_stages
pipeline_master-IsChain_example =
    pipeline_master-IsChain toy_kernel toy_kernel-IsPosix work two_conversions spooler_files
      last_table launched.0 ((λ e. ground (arith, e)), (λ e. ground (arith, e))) refl

wait_stages-succeeds_iff_example : wait_stages (some 0 ∷ some 0 ∷ []) false ≡ false
wait_stages-succeeds_iff_example =
    (wait_stages-succeeds_iff (some 0 ∷ some 0 ∷ [])).1 (refl, (refl, tt))
