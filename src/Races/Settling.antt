-- ===== src/Races/Settling.antt =====
-- No report on a child is lost between the SIGCHLD handler and handle_child_status_updates.
use posix_printer_spooler.Prelude.{
  true, false, ℤ, ◌≡◌, refl, ◌⊎◌, inl, inr, List, [], ◌∷◌, arith, if_cases_elim,
}
use posix_printer_spooler.Platform.{Platform, WaitStatus}
use posix_printer_spooler.Spooler.{Spooler}
use posix_printer_spooler.Children.{
  sigchld_handler, child_report, child_reports, handle_child_status_updates,
}
use posix_printer_spooler.Races.{
  outside, draining, scheduling, System, system, changes, changes_masked, executes, handles, enters,
  reaps, drains, leaves, CallStep, CallSteps, done, goes_on, Step, Steps, here, next,
}
use posix_printer_spooler.Races.Flag.{IsRaised}
use posix_printer_spooler.Races.Commands.{process_line-IsRaised}

module _ {P : Platform} where
  -- Outside the loop over `waitpid`, wherever there is something to report the flag is set, or will be
  -- by the signal that is held back.
  unfoldable IsWatched : System P → Type 0
  IsWatched (system outside held pending s) = (pending ≡ []) ⊎ IsRaised s
  IsWatched (system draining held pending s) = Unit
  IsWatched (system scheduling held pending s) = (pending ≡ []) ⊎ (held ≡ true)

  CallStep-IsWatched : {x y : System P} → CallStep x y → IsWatched x → IsWatched y
  unfolding IsWatched sigchld_handler
  CallStep-IsWatched (enters pending s raised) w = tt
  CallStep-IsWatched (reaps pid status held pending s) w = tt
  CallStep-IsWatched (drains held s) w = inl refl
  CallStep-IsWatched (leaves held pending s) (inl none_pending) = inl none_pending
  CallStep-IsWatched (leaves held pending s) (inr waits) = inr (rw waits refl)

  Step-IsWatched : {x y : System P} → Step x y → IsWatched x → IsWatched y
  unfolding IsWatched sigchld_handler
  Step-IsWatched (changes pid status pending pending' s c) w = inr refl
  Step-IsWatched (changes_masked outside pid status held pending pending' s masked c) w =
      absurd (masked refl)
  Step-IsWatched (changes_masked draining pid status held pending pending' s masked c) w = tt
  Step-IsWatched (changes_masked scheduling pid status held pending pending' s masked c) w =
      inr refl
  Step-IsWatched (executes l pending s) (inl none_pending) = inl none_pending
  Step-IsWatched (executes l pending s) (inr raised) = inr (process_line-IsRaised l s raised)
  Step-IsWatched (handles step) w = CallStep-IsWatched step w

  Steps-IsWatched : {x y : System P} → Steps x y → IsWatched x → IsWatched y
  Steps-IsWatched here w = w
  Steps-IsWatched (next steps step) w = Step-IsWatched step (Steps-IsWatched steps w)

  -- The loop over `waitpid`.
  drain :
      {x : System P} (pending : List (ℤ × WaitStatus)) (s : Spooler P)
      → CallSteps x (system draining false pending s)
      → CallSteps x (system draining false [] (child_reports pending s))
  unfolding child_reports
  drain [] s steps = steps
  drain ((pid, status) ∷ pending) s steps =
      drain pending (child_report pid status s) (goes_on steps (reaps pid status false pending s))

  -- A call of handle_child_status_updates.
  call :
      (pending : List (ℤ × WaitStatus)) (s : Spooler P)
      → IsWatched (system outside false pending s)
      → CallSteps
          (system outside false pending s)
          (system outside false [] (handle_child_status_updates pending s))
  unfolding handle_child_status_updates IsWatched
  call pending s w =
      if_cases_elim (λ r. CallSteps (system outside false pending s) (system outside false [] r))
        s.child_signal_received _ _
        (λ raised.
          goes_on
            (goes_on (drain pending _ (goes_on done (enters pending s raised))) (drains false _))
            (leaves false [] _))
        (λ clear. elim w [
          | inl none_pending ↦ rw none_pending done
          | inr raised ↦ absurd (ground (arith, raised, clear))
        ])

  -- However the changes of the children, the lines of input and the steps of
  -- handle_child_status_updates were interleaved since nothing was pending, a call of
  -- handle_child_status_updates made then, with no change and no line in between, handles each pending
  -- report, in order: its own steps, of which only those for a report of `waitpid` take one off the
  -- list, lead to the state that the function computes from the reports, with none pending.
  pub reports_settle :
      (s₀ s : Spooler P) (pending : List (ℤ × WaitStatus))
      → Steps (system outside false [] s₀) (system outside false pending s)
      → CallSteps
          (system outside false pending s)
          (system outside false [] (handle_child_status_updates pending s))
  unfolding IsWatched
  reports_settle s₀ s pending steps = call pending s (Steps-IsWatched steps (inl refl))
