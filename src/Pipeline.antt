-- ===== src/Pipeline.antt =====
-- src/job_manager.c: the child's side of start_conversion_pipeline, which forks a process for each
-- stage and wires them by pipes. A process is its table of descriptors; `Kernel` stands for the
-- system calls, with the laws that POSIX gives for them.
pub mod Wiring
pub mod Chain
pub mod Rounds
pub mod Master
pub mod Status
pub mod Groups
use posix_printer_spooler.Prelude.{
  ℕ, suc, ◌+◌, ◌≡◌, ◌≢◌, Bool, true, false, ◌||◌, not, Option, none, some, List, [], ◌∷◌, map, ◌==◌,
  if◌then◌else◌,
}
use posix_printer_spooler.Text.{Text, text}
use posix_printer_spooler.Platform.{Conversion}

-- What a descriptor refers to. A pipe is named by the stage that writes to it.
pub data Channel : Type 0 where
  input : Text → Channel
  printer : Text → Text → Channel
  reader : ℕ → Channel
  writer : ℕ → Channel
  inherited : ℕ → Channel

pub record Kernel : Type 1 where
  pub Files : Type 0
  pub get : ℕ → Files → Option Channel
  pub close : ℕ → Files → Files
  pub dup2 : ℕ → ℕ → Files → Files
  -- `pipe`, called for the stage of that number: the two descriptors.
  pub pipe : ℕ → Files → Option (ℕ × ℕ × Files)
  -- `open(path, O_RDONLY)` and `presi_connect_to_printer`.
  pub open_read : Text → Files → Option (ℕ × Files)
  pub connect : Text → Text → Files → Option (ℕ × Files)
  -- Whether the fork for the stage of that number gives a process.
  pub forks : ℕ → Bool

-- `fd` was free, and now refers to `ch`; no other descriptor has changed.
pub record Opens (K : Kernel) (fd : ℕ) (ch : Channel) (t t' : K.Files) : Type 0 where
  pub fresh : K.get fd t ≡ none
  pub now : K.get fd t' ≡ some ch
  pub others : (k : ℕ) → k ≢ fd → K.get k t' ≡ K.get k t

pub record IsPosix (K : Kernel) : Type 0 where
  pub get-close : (fd : ℕ) (t : K.Files) → K.get fd (K.close fd t) ≡ none
  pub close-others : (fd k : ℕ) (t : K.Files) → k ≢ fd → K.get k (K.close fd t) ≡ K.get k t
  -- From an open descriptor; from a closed one, `dup2` fails.
  pub get-dup2 :
      (old new : ℕ) (ch : Channel) (t : K.Files)
      → K.get old t ≡ some ch
      → K.get new (K.dup2 old new t) ≡ some ch
  pub dup2-others : (old new k : ℕ) (t : K.Files) → k ≢ new → K.get k (K.dup2 old new t) ≡ K.get k t
  pub pipe-opens :
      (i r w : ℕ) (t t' : K.Files)
      → K.pipe i t ≡ some (r, w, t')
      → (mid : K.Files) × Opens K r (reader i) t mid × Opens K w (writer i) mid t'
  pub open-opens :
      (path : Text) (fd : ℕ) (t t' : K.Files)
      → K.open_read path t ≡ some (fd, t')
      → Opens K fd (input path) t t'
  pub connect-opens :
      (name type : Text) (fd : ℕ) (t t' : K.Files)
      → K.connect name type t ≡ some (fd, t')
      → Opens K fd (printer name type) t t'

-- What the pipeline reads of the job: its path, and the name and the type's name of its printer.
pub record Work : Type 0 where
  pub input_file_path : Option Text
  pub target : Option (Text × Text)

-- A process of a stage: none where it exits with 1 before `execvp`.
abbrev pub Stage : Kernel → Type 0
Stage K = Option (K.Files × List Text)

-- The commands of the stages: of `/bin/cat` alone where there is no conversion.
abbrev pub stages : Option (List Conversion) → List (List Text)
stages none = (text "/bin/cat" ∷ []) ∷ []
stages (some []) = (text "/bin/cat" ∷ []) ∷ []
stages (some (c ∷ cs)) = c.cmd_and_args ∷ map (λ (d : Conversion). d.cmd_and_args) cs

module _ (K : Kernel) where
  -- `dup2(fd, target); close(fd);`
  abbrev pub move : ℕ → ℕ → K.Files → K.Files
  move fd target t = K.close fd (K.dup2 fd target t)

  -- The input of a stage: the file for the first, else the previous pipe.
  unfoldable pub set_input : Work → Option ℕ → K.Files → Option K.Files
  set_input job (some prev_fd) t = some (move prev_fd 0 t)
  set_input job none t = elim job.input_file_path [
    | none ↦ none
    | some path ↦ elim (K.open_read path t) [ none ↦ none | some (fd, t') ↦ some (move fd 0 t') ]
  ]

  -- The output of a stage: the next pipe, or the printer for the last.
  unfoldable pub set_output : Work → Option (ℕ × ℕ) → K.Files → Option K.Files
  set_output job (some (r, w)) t = some (move w 1 (K.close r t))
  set_output job none t = elim job.target [
    | none ↦ none
    | some (name, type) ↦ elim (K.connect name type t) [
      | none ↦ none
      | some (fd, t') ↦ some (move fd 1 t')
    ]
  ]

  -- The process of a stage.
  unfoldable pub stage_child : Work → Option ℕ → Option (ℕ × ℕ) → List Text → K.Files → Stage K
  unfolding set_input set_output
  stage_child job prev next args t = elim (set_input job prev t) [
    | none ↦ none
    | some t₁ ↦ elim (set_output job next t₁) [ none ↦ none | some t₂ ↦ some (t₂, args) ]
  ]

  -- `if (prev_fd != -1) close(prev_fd);`
  abbrev pub close_previous : Option ℕ → K.Files → K.Files
  close_previous none t = t
  close_previous (some fd) t = K.close fd t

  -- The loop of the master from stage `i` on: the processes, and the master's table where it reaches
  -- its wait, none where it exits with 1.
  unfoldable pub launch_stages :
      Work → ℕ → List (List Text) → Option ℕ → K.Files → List (Stage K) × Option K.Files
  launch_stages job i [] prev t = ([], some t)
  launch_stages job i (args ∷ []) prev t =
      if not (K.forks i)
      then ([], none)
      else (stage_child job prev none args t ∷ [], some (close_previous prev t))
  launch_stages job i (args ∷ (more ∷ rest)) prev t = elim (K.pipe i t) [
    | none ↦ ([], none)
    | some (r, w, t₁) ↦
        let (procs, end) =
          launch_stages job (suc i) (more ∷ rest) (some r) (K.close w (close_previous prev t₁)) in
        if not (K.forks i)
        then ([], none)
        else (stage_child job prev (some (r, w)) args t₁ ∷ procs, end)
  ]

  unfoldable pub pipeline_master :
      Work → Option (List Conversion) → K.Files → List (Stage K) × Option K.Files
  unfolding launch_stages
  pipeline_master job path t = launch_stages job 0 (stages path) none t

-- What `wait` reports of a process: its exit status, or none where it was killed.
abbrev pub failed : Option ℕ → Bool
failed none = true
failed (some code) = not (code == 0)

-- The master's exit status.
unfoldable pub wait_stages : List (Option ℕ) → Bool → Bool
wait_stages [] so_far = so_far
wait_stages (status ∷ rest) so_far = wait_stages rest (so_far || failed status)
