-- ===== src/Pipeline/Status.antt =====
-- The exit status of the master.
use posix_printer_spooler.Prelude.{
  ℕ, ◌≡◌, ◌↔◌, Bool, false, ◌||◌, Option, none, some, List, [], ◌∷◌, arith,
}
use posix_printer_spooler.Pipeline.{failed, wait_stages}

abbrev pub AllSucceed : List (Option ℕ) → Type 0
AllSucceed [] = Unit
AllSucceed (status ∷ rest) = (status ≡ some 0) × AllSucceed rest

failed_iff : (status : Option ℕ) → (failed status ≡ false) ↔ (status ≡ some 0)
failed_iff none = ground arith
failed_iff (some code) = ground arith

wait-succeeds_iff :
    (statuses : List (Option ℕ)) (b : Bool)
    → (wait_stages statuses b ≡ false) ↔ ((b ≡ false) × AllSucceed statuses)
unfolding wait_stages
wait-succeeds_iff [] b = ground arith
wait-succeeds_iff (status ∷ rest) b =
    ground (arith, wait-succeeds_iff rest (b || failed status), failed_iff status)

-- The master's exit status is 0 exactly when each stage that it waits for has exited with 0: a stage
-- that fails, or is killed, at any place of the chain makes it 1.
pub wait_stages-succeeds_iff :
    (statuses : List (Option ℕ)) → (wait_stages statuses false ≡ false) ↔ AllSucceed statuses
wait_stages-succeeds_iff statuses = ground (arith, wait-succeeds_iff statuses false)
