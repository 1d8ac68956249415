-- ===== src/Tests/Processes.antt =====
-- Process groups of a pipeline on a concrete system.
use posix_printer_spooler.Prelude.{
  ℕ, suc, ℤ, pos, negsuc, is_negative, int_eq, int_eq_iff, ◌≡◌, ◌≢◌, refl, false, Option, none,
  some, [], ◌∷◌, arith, Option-cases, Bool-cases, ap, inl, inr, if◌then◌else◌, ◌∙◌,
}
use posix_printer_spooler.Platform.{sigstop}
use posix_printer_spooler.Control.{pause_job}
use posix_printer_spooler.Control.Cancel.{signals}
use posix_printer_spooler.Pipeline.Groups.{Processes, IsPosixGroups, fork_stages, fork_pipeline}
use posix_printer_spooler.Pipeline.Groups.Signals.{AllApart, pause_job-misses_stages}
use posix_printer_spooler.Tests.States.{printing}

record System : Type 0 where
  next : ℕ
  groups : ℤ → Option ℤ

abbrev put_group : ℤ → Option ℤ → (ℤ → Option ℤ) → ℤ → Option ℤ
put_group p g groups k = if int_eq k p then g else groups k

abbrev toy_fork : ℤ → System → ℤ × System
toy_fork p w = elim (w.groups (pos w.next)) [
  | some used ↦ (negsuc 0, w)
  | none ↦ (
    pos w.next,
    record { next = suc w.next; groups = put_group (pos w.next) (w.groups p) w.groups },
  )
]

abbrev toy_own_group : ℤ → System → System
toy_own_group p w = record w { groups = put_group p (some p) w.groups }

abbrev toy_processes : Processes
toy_processes = record {
  System = System;
  group = λ k w. w.groups k;
  fork = toy_fork;
  own_group = toy_own_group;
}

put_same : (p : ℤ) (g : Option ℤ) (groups : ℤ → Option ℤ) → put_group p g groups p ≡ g
put_same p g groups = rw ((int_eq_iff p p).1 refl) refl

put_other :
    (p k : ℤ) (g : Option ℤ) (groups : ℤ → Option ℤ) → k ≢ p → put_group p g groups k ≡ groups k
put_other p k g groups ne = elim (Bool-cases (int_eq k p)) [
  | inl same ↦ absurd (ne ((int_eq_iff k p).0 same))
  | inr differ ↦ rw differ refl
]

toy_fork_new :
    (p : ℤ) (w : System)
    → is_negative (toy_fork p w).0 ≡ false
    → (w.groups (toy_fork p w).0 ≡ none) × ((toy_fork p w).1.groups (toy_fork p w).0 ≡ w.groups p)
toy_fork_new p w ok = elim (Option-cases (w.groups (pos w.next))) [
  | inr (g, used) ↦ ground (arith, rw (toy_fork, used) at ok)
  | inl free ↦ rw (toy_fork, free) (free, put_same (pos w.next) (w.groups p) w.groups)
]

toy_fork_others :
    (p k : ℤ) (w : System) → w.groups k ≢ none → (toy_fork p w).1.groups k ≡ w.groups k
toy_fork_others p k w there = elim (Option-cases (w.groups (pos w.next))) [
  | inr (g, used) ↦ rw (toy_fork, used) refl
  | inl free ↦
      rw (toy_fork, free)
        (put_other (pos w.next) k (w.groups p) w.groups (λ same. there (ap w.groups same ∙ free)))
]

toy_processes-IsPosixGroups : IsPosixGroups toy_processes
toy_processes-IsPosixGroups = record {
  fork-new = toy_fork_new;
  fork-others = toy_fork_others;
  group-own_group = λ p w there. put_same p (some p) w.groups;
  own_group-others = λ p k w ne. put_other p k (some p) w.groups ne;
}

-- The spooler, process 7, and nothing else; the next process is the one of the job in `printing`.
abbrev alone : System
alone = record { next = 1200; groups = λ k. if int_eq k (pos 7) then some (pos 7) else none }

pause_job-misses_stages_example :
    (signals (pause_job (pos 0) printing).1.trace ≡ (pos 1200, sigstop) ∷ [])
    × ((fork_pipeline toy_processes (pos 7) 2 alone).2.groups (pos 1200) ≡ some (pos 1200))
    × (AllApart toy_processes toy_processes-IsPosixGroups
        (pos 1200)
        (fork_pipeline toy_processes (pos 7) 2 alone).2
        (pos 1201 ∷ pos 1202 ∷ []))
unfolding fork_pipeline fork_stages
pause_job-misses_stages_example =
    pause_job-misses_stages toy_processes toy_processes-IsPosixGroups 0 printing (pos 7) (pos 7) 2
      alone (omega arith) refl refl refl refl
