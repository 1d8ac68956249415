-- ===== src/Pipeline/Wiring.antt =====
-- The stages of a pipeline form a chain from the file to the printer, and no descriptor leaks.
use posix_printer_spooler.Prelude.{
  ℕ, ◌≤◌, ◌≡◌, ◌≢◌, sym, ap, ◌∙◌, inl, inr, Option, none, some, List, [], arith, ℕ_discrete,
  Option-cases, ◌==◌, if◌then◌else◌,
}
use posix_printer_spooler.Text.{Text}
use posix_printer_spooler.Pipeline.{
  Channel, input, printer, Kernel, IsPosix, Opens, Work, Stage, move, set_input, set_output,
}

-- Beside its standard input and output, a process has the descriptors that the spooler had.
abbrev pub SameAbove : (K : Kernel) → K.Files → K.Files → Type 0
SameAbove K t f = (fd : ℕ) → 2 ≤ fd → K.get fd f ≡ K.get fd t

-- A process of a stage has exited, or it runs the command, reads `source`, writes `sink` and has no
-- further descriptor.
abbrev pub Wired : (K : Kernel) → K.Files → Channel → Channel → List Text → Stage K → Type 0
Wired K t source sink args none = Unit
Wired K t source sink args (some (f, argv)) =
    (argv ≡ args) × (K.get 0 f ≡ some source) × (K.get 1 f ≡ some sink) × SameAbove K t f

abbrev pub source : Work → Channel
source job = elim job.input_file_path [ none ↦ input [] | some path ↦ input path ]

abbrev pub sink : Work → Channel
sink job = elim job.target [ none ↦ printer [] [] | some (name, type) ↦ printer name type ]

module _ (K : Kernel) where
  -- The table without a descriptor.
  abbrev pub without : Option ℕ → K.Files → ℕ → Option Channel
  without none t k = K.get k t
  without (some fd) t k = if k == fd then none else K.get k t

  abbrev pub Source : Work → Option ℕ → Channel → K.Files → Type 0
  Source job none src t = src ≡ source job
  Source job (some fd) src t = (K.get fd t ≡ some src) × (fd ≢ 0)

  -- The input is in place, and the descriptor that it came by is closed.
  abbrev pub InputOk : Option ℕ → Channel → K.Files → Option K.Files → Type 0
  InputOk prev src t none = Unit
  InputOk prev src t (some f) =
      (K.get 0 f ≡ some src) × ((k : ℕ) → k ≢ 0 → K.get k f ≡ without prev t k)

  -- The output is in place, and both ends of the pipe are closed.
  abbrev pub OutputOk : Option (ℕ × ℕ) → Channel → K.Files → Option K.Files → Type 0
  OutputOk next snk t none = Unit
  OutputOk none snk t (some f) = (K.get 1 f ≡ some snk) × ((k : ℕ) → k ≢ 1 → K.get k f ≡ K.get k t)
  OutputOk (some (r, w)) snk t (some f) =
      (K.get 1 f ≡ some snk)
      × ((k : ℕ)
          → k ≢ 1
          → K.get k f ≡ (if k == r then none else if k == w then none else K.get k t))

  abbrev pub Sink : Work → Option (ℕ × ℕ) → Channel → K.Files → Type 0
  Sink job none snk t = snk ≡ sink job
  Sink job (some (r, w)) snk t = (K.get w t ≡ some snk) × (w ≢ r) × (w ≢ 1) × (r ≢ 1)

module _ (K : Kernel) (posix : IsPosix K) where
  -- A descriptor that is open beforehand is not one that is opened later.
  open_ne : (k fd : ℕ) (t : K.Files) → K.get k t ≢ none → K.get fd t ≡ none → k ≢ fd
  open_ne k fd t used free same = used (ap (λ (x : ℕ). K.get x t) same ∙ free)

  get-move :
      (fd target : ℕ) (ch : Channel) (t : K.Files)
      → target ≢ fd
      → K.get fd t ≡ some ch
      → K.get target (move K fd target t) ≡ some ch
  get-move fd target ch t ne is_open =
      posix.close-others fd target (K.dup2 fd target t) ne ∙ posix.get-dup2 fd target ch t is_open

  move-others :
      (fd target k : ℕ) (t : K.Files)
      → k ≢ fd
      → k ≢ target
      → K.get k (move K fd target t) ≡ K.get k t
  move-others fd target k t ne ne' =
      posix.close-others fd k (K.dup2 fd target t) ne ∙ posix.dup2-others fd target k t ne'

  move-closes : (fd target : ℕ) (t : K.Files) → K.get fd (move K fd target t) ≡ none
  move-closes fd target t = posix.get-close fd (K.dup2 fd target t)

  -- Moving a new descriptor onto an open one changes that one, and nothing else.
  move-opened :
      (fd target : ℕ) (ch : Channel) (t t' : K.Files)
      → Opens K fd ch t t'
      → K.get target t ≢ none
      → (K.get target (move K fd target t') ≡ some ch)
        × ((k : ℕ) → k ≢ target → K.get k (move K fd target t') ≡ K.get k t)
  move-opened fd target ch t t' o used = (
    get-move fd target ch t' (open_ne target fd t used o.fresh) o.now,
    λ k ne. elim (ℕ_discrete k fd) [
      | yes same ↦
          ap (λ (x : ℕ). K.get x (move K fd target t')) same
          ∙ move-closes fd target t'
          ∙ sym (ap (λ (x : ℕ). K.get x t) same ∙ o.fresh)
      | no other ↦ move-others fd target k t' other ne ∙ o.others k other
    ],
  )

  pub set_input-InputOk :
      (job : Work) (prev : Option ℕ) (src : Channel) (t : K.Files)
      → Source K job prev src t
      → K.get 0 t ≢ none
      → InputOk K prev src t (set_input K job prev t)
  unfolding set_input
  set_input-InputOk job (some fd) src t (is_open, ne) used = (
    get-move fd 0 src t (λ e. ne (sym e)) is_open,
    λ k other. elim (ℕ_discrete k fd) [
      | yes same ↦ rw same (ground (arith, move-closes fd 0 t))
      | no differ ↦ ground (arith, differ, move-others fd 0 k t differ other)
    ],
  )
  set_input-InputOk job none src t first used = elim (Option-cases job.input_file_path) [
    | inl no_path ↦ rw no_path tt
    | inr (path, has_path) ↦ elim (Option-cases (K.open_read path t)) [
      | inl refused ↦ rw (has_path, set_input, refused) tt
      | inr ((fd, t'), opened) ↦
          rw (has_path, set_input, opened)
            (let moved =
                move-opened fd 0 (input path) t t' (posix.open-opens path fd t t' opened) used in
              (ground (arith, moved.0, first, has_path), moved.1))
    ]
  ]

  pub set_output-OutputOk :
      (job : Work) (next : Option (ℕ × ℕ)) (snk : Channel) (t : K.Files)
      → Sink K job next snk t
      → K.get 1 t ≢ none
      → OutputOk K next snk t (set_output K job next t)
  unfolding set_output
  set_output-OutputOk job (some (r, w)) snk t (is_open, ne, w_high, r_high) used = (
    get-move w 1 snk (K.close r t) (λ e. w_high (sym e)) (posix.close-others r w t ne ∙ is_open),
    λ k other. elim (ℕ_discrete k w) [
      | yes same ↦ rw same (ground (arith, move-closes w 1 (K.close r t)))
      | no differ ↦ elim (ℕ_discrete k r) [
        | yes same ↦ ground (
          arith,
          same,
          move-others w 1 k (K.close r t) differ other,
          ap (λ (x : ℕ). K.get x (K.close r t)) same,
          posix.get-close r t,
        )
        | no further ↦ ground (
          arith,
          differ,
          further,
          move-others w 1 k (K.close r t) differ other,
          posix.close-others r k t further,
        )
      ]
    ],
  )
  set_output-OutputOk job none snk t last used = elim (Option-cases job.target) [
    | inl no_printer ↦ rw no_printer tt
    | inr ((name, type), has_printer) ↦ elim (Option-cases (K.connect name type t)) [
      | inl refused ↦ rw (has_printer, set_output, refused) tt
      | inr ((fd, t'), opened) ↦
          rw (has_printer, set_output, opened)
            (let moved =
                move-opened fd 1 (printer name type) t t'
                  (posix.connect-opens name type fd t t' opened) used in
              (ground (arith, moved.0, last, has_printer), moved.1))
    ]
  ]
