-- ===== src/Pipeline/Groups.antt =====
-- src/job_manager.c: the process groups of a pipeline. The master and the stages call `setpgid(0, 0)`
-- first of all; nothing else changes a group.
pub mod Signals
use posix_printer_spooler.Prelude.{
  ℕ, zero, suc, ℤ, is_negative, ◌≡◌, ◌≢◌, Bool, true, false, Option, none, some, List, [], ◌∷◌,
  if◌then◌else◌,
}

-- The processes of the system, each with the group that it is in.
pub record Processes : Type 1 where
  pub System : Type 0
  -- The group of a process, none where there is no such process.
  pub group : ℤ → System → Option ℤ
  -- `fork()` in a process: the parent's result.
  pub fork : ℤ → System → ℤ × System
  -- `setpgid(0, 0)` in a process.
  pub own_group : ℤ → System → System

pub record IsPosixGroups (Q : Processes) : Type 0 where
  pub fork-new :
      (p : ℤ) (w : Q.System)
      → is_negative (Q.fork p w).0 ≡ false
      → (Q.group (Q.fork p w).0 w ≡ none) × (Q.group (Q.fork p w).0 (Q.fork p w).1 ≡ Q.group p w)
  pub fork-others :
      (p k : ℤ) (w : Q.System) → Q.group k w ≢ none → Q.group k (Q.fork p w).1 ≡ Q.group k w
  pub group-own_group :
      (p : ℤ) (w : Q.System) → Q.group p w ≢ none → Q.group p (Q.own_group p w) ≡ some p
  pub own_group-others :
      (p k : ℤ) (w : Q.System) → k ≢ p → Q.group k (Q.own_group p w) ≡ Q.group k w

module _ (Q : Processes) where
  -- The forks of the master's loop, with the `setpgid` of each stage: the stages, and the system. The
  -- master exits where a fork fails.
  unfoldable pub fork_stages : ℕ → ℤ → Q.System → List ℤ × Q.System
  fork_stages zero master w = ([], w)
  fork_stages (suc n) master w =
      let (stage, w₁) = Q.fork master w in
      let (stages, w₂) = fork_stages n master (Q.own_group stage w₁) in
      if is_negative stage then ([], w₁) else (stage ∷ stages, w₂)

  -- The spooler's fork of the master, and what the master does.
  unfoldable pub fork_pipeline : ℤ → ℕ → Q.System → ℤ × List ℤ × Q.System
  unfolding fork_stages
  fork_pipeline spooler n w =
      let (master, w₁) = Q.fork spooler w in
      let (stages, w₂) = fork_stages n master (Q.own_group master w₁) in
      if is_negative master then (master, [], w₁) else (master, stages, w₂)
