-- ===== src/Pipeline/Groups/Signals.antt =====
-- Which processes of a pipeline the signals of cancel_job, pause_job and resume_job reach.
use posix_printer_spooler.Prelude.{
  ℕ, zero, suc, ◌<◌, ℤ, pos, is_negative, ◌≡◌, ◌≢◌, ◌∙◌, sym, ap, refl, inl, inr, false, none, some,
  List, [], ◌∷◌, arith, Bool-cases,
}
use posix_printer_spooler.Platform.{Platform, sigstop}
use posix_printer_spooler.Spooler.{Spooler, running}
use posix_printer_spooler.Control.{pause_job}
use posix_printer_spooler.Control.Cancel.{signals}
use posix_printer_spooler.Control.Signals.{pause_job-Signals}
use posix_printer_spooler.Pipeline.Groups.{Processes, IsPosixGroups, fork_stages, fork_pipeline}

module _ (Q : Processes) (posix : IsPosixGroups Q) where
  exists_of_some : (k g : ℤ) (w : Q.System) → Q.group k w ≡ some g → Q.group k w ≢ none
  exists_of_some k g w e n = ground (arith, e, n)

  new_ne :
      (p k g : ℤ) (w : Q.System)
      → is_negative (Q.fork p w).0 ≡ false
      → Q.group k w ≡ some g
      → k ≢ (Q.fork p w).0
  new_ne p k g w ok e same =
      exists_of_some k g w e (ap (λ (x : ℤ). Q.group x w) same ∙ (posix.fork-new p w ok).0)

  -- What is in a group stays there while the stages are forked.
  fork_stages-others :
      (n : ℕ) (master k g : ℤ) (w : Q.System)
      → Q.group k w ≡ some g
      → Q.group k (fork_stages Q n master w).1 ≡ some g
  unfolding fork_stages
  fork_stages-others zero master k g w e = e
  fork_stages-others (suc n) master k g w e = elim (Bool-cases (is_negative (Q.fork master w).0)) [
    | inl refused ↦
        rw (fork_stages, refused) (posix.fork-others master k w (exists_of_some k g w e) ∙ e)
    | inr forked ↦
        rw (fork_stages, forked)
          (fork_stages-others n master k g (Q.own_group (Q.fork master w).0 (Q.fork master w).1) (
            posix.own_group-others (Q.fork master w).0 k (Q.fork master w).1
              (new_ne master k g w forked e)
            ∙ posix.fork-others master k w (exists_of_some k g w e)
            ∙ e))
  ]

  -- Each of the processes leads a group of its own, other than the given one.
  abbrev pub AllApart : ℤ → Q.System → List ℤ → Type 0
  AllApart g w [] = Unit
  AllApart g w (k ∷ ks) = (Q.group k w ≡ some k) × (k ≢ g) × AllApart g w ks

  fork_stages-AllApart :
      (n : ℕ) (master g : ℤ) (w : Q.System)
      → Q.group master w ≡ some g
      → AllApart master (fork_stages Q n master w).1 (fork_stages Q n master w).0
  unfolding fork_stages
  fork_stages-AllApart zero master g w e = tt
  fork_stages-AllApart (suc n) master g w e = elim (Bool-cases (is_negative (Q.fork master w).0)) [
    | inl refused ↦ rw (fork_stages, refused) tt
    | inr forked ↦
        let stage = (Q.fork master w).0 in
        let w₁ = (Q.fork master w).1 in
        let other = new_ne master master g w forked e in
        let alive = exists_of_some stage g w₁ ((posix.fork-new master w forked).1 ∙ e) in
        let still : Q.group master (Q.own_group stage w₁) ≡ some g =
          posix.own_group-others stage master w₁ other
          ∙ posix.fork-others master master w (exists_of_some master g w e)
          ∙ e in
        rw (fork_stages, forked)
          (
            fork_stages-others n master stage stage (Q.own_group stage w₁)
                (posix.group-own_group stage w₁ alive),
            (λ same. other (sym same)),
            fork_stages-AllApart n master g (Q.own_group stage w₁) still,
          )
  ]

  -- The master leads its group, and each stage another.
  pub fork_pipeline-AllApart :
      (spooler g : ℤ) (n : ℕ) (w : Q.System)
      → Q.group spooler w ≡ some g
      → is_negative (Q.fork spooler w).0 ≡ false
      → let (master, stages, w') = fork_pipeline Q spooler n w in
        (Q.group master w' ≡ some master) × AllApart master w' stages
  unfolding fork_pipeline
  fork_pipeline-AllApart spooler g n w e forked =
      let master = (Q.fork spooler w).0 in
      let w₁ = (Q.fork spooler w).1 in
      let alive = exists_of_some master g w₁ ((posix.fork-new spooler w forked).1 ∙ e) in
      let leads = posix.group-own_group master w₁ alive in
      rw (fork_pipeline, forked)
        (
          fork_stages-others n master master master (Q.own_group master w₁) leads,
          fork_stages-AllApart n master master (Q.own_group master w₁) leads,
        )

  -- `pause` on a RUNNING job stops its pipeline's master and no stage: the one signal that it sends is
  -- SIGSTOP to the group of the master, and each stage is in a group of its own.
  pub pause_job-misses_stages :
      {P : Platform} (i : ℕ) (s : Spooler P) (spooler g : ℤ) (n : ℕ) (w : Q.System)
      → i < s.job_count
      → (s.job_spool i).status ≡ running
      → (s.job_spool i).pgid ≡ (fork_pipeline Q spooler n w).0
      → Q.group spooler w ≡ some g
      → is_negative (Q.fork spooler w).0 ≡ false
      → let (master, stages, w') = fork_pipeline Q spooler n w in
        (signals (pause_job (pos i) s).1.trace ≡ (master, sigstop) ∷ signals s.trace)
        × (Q.group master w' ≡ some master)
        × AllApart master w' stages
  pause_job-misses_stages i s spooler g n w below runs is_master e forked =
      let apart = fork_pipeline-AllApart spooler g n w e forked in
      (
        ((pause_job-Signals (pos i) s).hit i refl below runs).1
            ∙ ap (λ (x : ℤ). (x, sigstop) ∷ signals s.trace) is_master,
        apart.0,
        apart.1,
      )
