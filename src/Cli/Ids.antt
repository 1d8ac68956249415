-- ===== src/Cli/Ids.antt =====
-- Commands on a job, typed with the number that the program prints for it.
use posix_printer_spooler.Prelude.{
  ℕ, ◌≡◌, ◌∙◌, ap, arith, ℤ, pos, Bool, false, String, [], ◌∷◌, ◌++◌,
}
use posix_printer_spooler.Text.{Text, text, text_eq}
use posix_printer_spooler.Platform.{Platform}
use posix_printer_spooler.Spooler.{Spooler}
use posix_printer_spooler.Control.{cancel_job, pause_job, resume_job}
use posix_printer_spooler.Expiry.{delete_expired_jobs_if_needed}
use posix_printer_spooler.Tokens.{split_input_line_into_tokens}
use posix_printer_spooler.Tokens.Layout.{IsWord, split_two}
use posix_printer_spooler.Numbers.Decimal.{
  decimal, decimal-IsNumeral, IsNumeral-IsWord, atoi-decimal,
}
use posix_printer_spooler.Commands.{
  on_job, finish_job, handle_user_command, handle_cancel_command, handle_pause_command,
  handle_resume_command,
}
use posix_printer_spooler.Cli.{process_line, dispatch_tokens}

-- `cancel 12`, for a command and a number.
abbrev pub on_number : String → ℕ → Text
on_number name n = text name ++ (b' ' ∷ decimal n)

split_on_number :
    (name : String) (n : ℕ)
    → IsWord (text name)
    → split_input_line_into_tokens (on_number name n) ≡ text name ∷ decimal n ∷ []
split_on_number name n h =
    split_two (text name) (decimal n) h (IsNumeral-IsWord (decimal n) (decimal-IsNumeral n))

module _ {P : Platform} where
  on_job-decimal :
      (name arity_message call_message : String) (call : ℤ → Spooler P → ℤ × Spooler P) (n : ℕ)
      (s : Spooler P)
      → on_job name arity_message call_message call (text name ∷ decimal n ∷ []) s
        ≡ finish_job name call_message (pos n) (call (pos n) s)
  on_job-decimal name arity_message call_message call n s =
      ap (λ k. finish_job name call_message k (call k s)) (atoi-decimal n)

  -- What a line does whose tokens are a command, other than `quit`, and an argument.
  abbrev pub after_command : Spooler P → Bool × Spooler P
  after_command s = (false, delete_expired_jobs_if_needed s)

  -- `cancel`, `pause` and `resume`, typed with the number of a job as the program prints it, call the
  -- function of that name on exactly this number, report its failure with this number, and go on with
  -- the deletion of expired jobs.
  pub process_line-on_number :
      (n : ℕ) (s : Spooler P)
      → (process_line (on_number "cancel" n) s
          ≡ after_command
              (finish_job "cancel" "cancel_job() failed" (pos n) (cancel_job (pos n) s)))
        × (process_line (on_number "pause" n) s
            ≡ after_command (finish_job "pause" "pause_job() failed" (pos n) (pause_job (pos n) s)))
        × (process_line (on_number "resume" n) s
            ≡ after_command
                (finish_job "resume" "resume_job() failed" (pos n) (resume_job (pos n) s)))
  unfolding process_line dispatch_tokens handle_cancel_command handle_pause_command
      handle_resume_command handle_user_command text_eq
  process_line-on_number n s = (
    ap (λ ts. dispatch_tokens ts s) (split_on_number "cancel" n (ground arith))
        ∙ ap after_command (
            on_job-decimal "cancel" "Invalid arguments for 'cancel'" "cancel_job() failed"
              cancel_job n s),
    ap (λ ts. dispatch_tokens ts s) (split_on_number "pause" n (ground arith))
        ∙ ap after_command (
            on_job-decimal "pause" "Invalid arguments for 'pause'" "pause_job() failed" pause_job n
              s),
    ap (λ ts. dispatch_tokens ts s) (split_on_number "resume" n (ground arith))
        ∙ ap after_command (
            on_job-decimal "resume" "Invalid arguments for 'resume'" "resume_job() failed"
              resume_job n s),
  )
