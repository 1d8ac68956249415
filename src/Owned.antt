-- ===== src/Owned.antt =====
-- The process groups that are signalled, against the processes that were forked.
pub mod Jobs
pub mod Control
pub mod Commands
pub mod Children
pub mod Session
use mathlib.Core.Path.{subst}
use posix_printer_spooler.Prelude.{
  ℕ, suc, ℕ_discrete, ◌<◌, ◌≡◌, ◌≢◌, refl, ◌⊎◌, inl, inr, ℤ, pos, negsuc, failure, Option, none,
  some, List, [], ◌∷◌, arith, ◌==◌, Bool-cases, if_elim,
}
use posix_printer_spooler.Platform.{Platform, Signal}
use posix_printer_spooler.Spooler.{
  Spooler, Job, JobStatus, running, paused, Effect, killed, forked, emit, update,
}
use posix_printer_spooler.Jobs.Consistency.{IsActive}

-- The process group that an event signals, and the process that one tells of.
abbrev pub signalled_group : Effect → Option ℤ
signalled_group (killed pgid sig) = some pgid
signalled_group _ = none

abbrev pub forked_process : Effect → Option ℤ
forked_process (forked pid job path) = some pid
forked_process _ = none

-- A pipeline was started as the process `pid`.
abbrev pub HasForked : ℤ → List Effect → Type 0
HasForked pid [] = ⊥
HasForked pid (e ∷ trace) = (forked_process e ≡ some pid) ⊎ HasForked pid trace

-- Each signal goes to the group of a pipeline that was started before.
abbrev pub AreOwn : List Effect → Type 0
AreOwn [] = Unit
AreOwn (e ∷ trace) =
    ((pgid : ℤ) → signalled_group e ≡ some pgid → HasForked pgid trace) × AreOwn trace

-- A job has no group yet and is not active, or has that of a pipeline.
abbrev pub HasGroup : List Effect → Job → Type 0
HasGroup trace j = ((j.pgid ≡ failure) × (¬ IsActive j.status)) ⊎ HasForked j.pgid trace

pub record Own (n : ℕ) (spool : ℕ → Job) (trace : List Effect) : Type 0 where
  pub grouped : (i : ℕ) → i < n → HasGroup trace (spool i)
  pub signals : AreOwn trace

later_group :
    (e : Effect) (trace : List Effect) (j : Job) → HasGroup trace j → HasGroup (e ∷ trace) j
later_group e trace j (inl none_yet) = inl none_yet
later_group e trace j (inr has) = inr (inr has)

-- A job that ends, or waits, keeps its group.
pub resting_group :
    (trace : List Effect) (j : Job) (st : JobStatus)
    → ¬ IsActive st
    → HasGroup trace j
    → HasGroup trace (record j { status = st })
resting_group trace j st rests (inl (no_group, _)) = inl (no_group, rests)
resting_group trace j st rests (inr has) = inr has

module _ {n : ℕ} {spool : ℕ → Job} {trace : List Effect} where
  -- An event that is no signal.
  pub emit-Own :
      (e : Effect) → signalled_group e ≡ none → Own n spool trace → Own n spool (e ∷ trace)
  emit-Own e mute own = record {
    grouped = λ i h. later_group e trace (spool i) (own.grouped i h);
    signals = (λ pgid sent. absurd (ground (arith, mute, sent)), own.signals);
  }

  -- A signal to the group of a pipeline.
  pub killed-Own :
      (pgid : ℤ) (sig : Signal)
      → HasForked pgid trace
      → Own n spool trace
      → Own n spool (killed pgid sig ∷ trace)
  killed-Own pgid sig has own = record {
    grouped = λ i h. later_group (killed pgid sig) trace (spool i) (own.grouped i h);
    signals = (λ g sent. subst (λ x. HasForked x trace) (ground (arith, sent)) has, own.signals);
  }

  -- A write to one slot.
  pub update-Own :
      (i : ℕ) (j : Job)
      → (i < n → HasGroup trace j)
      → Own n spool trace
      → Own n (update spool i j) trace
  update-Own i j group own = record {
    grouped = λ k h. elim (Bool-cases (k == i)) [
      | inl same ↦ rw same (group (ground (arith, same, h)))
      | inr other ↦ rw other (own.grouped k h)
    ];
    signals = own.signals;
  }

  -- A slot more.
  pub grow-Own : HasGroup trace (spool n) → Own n spool trace → Own (suc n) spool trace
  grow-Own group own = record {
    grouped = λ k h. elim (ℕ_discrete k n) [
      | yes last ↦ rw last group
      | no before ↦ own.grouped k (omega arith)
    ];
    signals = own.signals;
  }

  -- A job that is active has a group.
  pub active_group :
      (i : ℕ)
      → i < n
      → IsActive (spool i).status
      → Own n spool trace
      → HasForked (spool i).pgid trace
  active_group i h active own = elim (own.grouped i h) [
    | inl (no_group, rests) ↦ absurd (rests active)
    | inr has ↦ has
  ]

abbrev pub IsOwn : {P : Platform} → Spooler P → Type 0
IsOwn s = Own s.job_count s.job_spool s.trace
