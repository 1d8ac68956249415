-- ===== src/Expiry/Refinement.antt =====
-- delete_expired_jobs_if_needed against its specification on the list of the jobs.
use mathlib.Core.Path.{ap₂}
use mathlib.Core.List.{append-nil, append_assoc}
use native.Mathlib.Nat.{add-zero, add-suc, suc-add, zero-add}
use posix_printer_spooler.Prelude.{
  ℕ, zero, suc, ◌+◌, ◌≤◌, ◌<◌, ◌≡◌, refl, ap, ◌∙◌, inl, inr, true, false, ltb, List, [], ◌∷◌, ◌++◌,
  arith, if◌then◌else◌, Bool-cases, lt→ltb,
}
use posix_printer_spooler.Platform.{Platform}
use posix_printer_spooler.Spooler.{Spooler, Job, Effect, job_deleted}
use posix_printer_spooler.Expiry.{
  is_expired, remove_job, expiry_loop, delete_expired_jobs_if_needed,
}
use posix_printer_spooler.Expiry.Compaction.{Removed, remove_job-Removed}

-- The slots from `i` on, `n` of them, as a list.
abbrev pub segment : ℕ → ℕ → (ℕ → Job) → List Job
segment zero i a = []
segment (suc n) i a = a i ∷ segment n (suc i) a

-- The jobs in the table, in order: what the rest of the program sees of the array.
abbrev pub jobs_of : {P : Platform} → Spooler P → List Job
jobs_of s = segment s.job_count 0 s.job_spool

-- The specification: keep what has not expired, and report the rest in order.
abbrev pub unexpired : ℕ → List Job → List Job
unexpired now [] = []
unexpired now (j ∷ js) = if is_expired now j then unexpired now js else j ∷ unexpired now js

abbrev pub deletions : ℕ → List Job → List Effect → List Effect
deletions now [] trace = trace
deletions now (j ∷ js) trace =
    deletions now js (if is_expired now j then job_deleted j.id ∷ trace else trace)

segment-ext :
    (n i : ℕ) (a b : ℕ → Job)
    → ((k : ℕ) → i ≤ k → k < i + n → a k ≡ b k)
    → segment n i a ≡ segment n i b
segment-ext zero i a b h = refl
segment-ext (suc n) i a b h =
    ap₂ ◌∷◌ (h i (omega arith) (omega arith))
      (segment-ext n (suc i) a b (λ k p q. h k (omega arith) (omega arith)))

segment_down :
    (n i : ℕ) (a b : ℕ → Job)
    → ((k : ℕ) → i ≤ k → k < i + n → a k ≡ b (suc k))
    → segment n i a ≡ segment n (suc i) b
segment_down zero i a b h = refl
segment_down (suc n) i a b h =
    ap₂ ◌∷◌ (h i (omega arith) (omega arith))
      (segment_down n (suc i) a b (λ k p q. h k (omega arith) (omega arith)))

segment_last : (n i : ℕ) (a : ℕ → Job) → segment (suc n) i a ≡ segment n i a ++ a (i + n) ∷ []
segment_last zero i a = rw add-zero
segment_last (suc n) i a = ap (◌∷◌ (a i)) (rw (add-suc, ← suc-add) (segment_last n (suc i) a))

last_of_prefix : (n : ℕ) (a : ℕ → Job) → segment (suc n) 0 a ≡ segment n 0 a ++ a n ∷ []
last_of_prefix n a = rw zero-add at (segment_last n 0 a)

ltb-false : (i n : ℕ) → n ≤ i → ltb i n ≡ false
ltb-false i n l = ground arith

grown :
    (now i m : ℕ) (a : ℕ → Job)
    → segment (suc i) 0 a ++ unexpired now (segment m (suc i) a)
      ≡ segment i 0 a ++ a i ∷ unexpired now (segment m (suc i) a)
grown now i m a =
    ap (λ (l : List Job). l ++ unexpired now (segment m (suc i) a)) (last_of_prefix i a)
    ∙ append_assoc (segment i 0 a) _ _

module _ {P : Platform} where
  kept_part :
      (i : ℕ) (s s₁ : Spooler P)
      → Removed i s s₁
      → segment i 0 s₁.job_spool ≡ segment i 0 s.job_spool
  kept_part i s s₁ d = segment-ext i 0 _ _ (λ k p q. d.before k (omega arith))

  moved_part :
      (i m : ℕ) (s s₁ : Spooler P)
      → s.job_count ≡ i + suc m
      → Removed i s s₁
      → segment m i s₁.job_spool ≡ segment m (suc i) s.job_spool
  moved_part i m s s₁ e d = segment_down m i _ _ (λ k p q. d.behind k p (omega (arith, d.fewer)))

  -- What the loop makes of the jobs from slot `i` on, `m` of them.
  record Swept (now i m : ℕ) (s r : Spooler P) : Type 0 where
    jobs : jobs_of r ≡ segment i 0 s.job_spool ++ unexpired now (segment m i s.job_spool)
    events : r.trace ≡ deletions now (segment m i s.job_spool) s.trace
    same_registry : r.printer_registry ≡ s.printer_registry
    same_printers : r.number_of_registered_printers ≡ s.number_of_registered_printers

  Swept-end : (now i : ℕ) (s : Spooler P) → s.job_count ≡ i → Swept now i 0 s s
  Swept-end now i s e = record {
    jobs = rw (e, append-nil);
    events = refl;
    same_registry = refl;
    same_printers = refl;
  }

  Swept-kept :
      (now i m : ℕ) (s r : Spooler P)
      → is_expired now (s.job_spool i) ≡ false
      → Swept now (suc i) m s r
      → Swept now i (suc m) s r
  Swept-kept now i m s r keep h = record {
    jobs = rw keep (h.jobs ∙ grown now i m s.job_spool);
    events = rw (keep, deletions) h.events;
    same_registry = h.same_registry;
    same_printers = h.same_printers;
  }

  Swept-Removed :
      (now i m : ℕ) (s s₁ r : Spooler P)
      → s.job_count ≡ i + suc m
      → is_expired now (s.job_spool i) ≡ true
      → Removed i s s₁
      → Swept now i m s₁ r
      → Swept now i (suc m) s r
  Swept-Removed now i m s s₁ r count gone d h = record {
    jobs = rw (gone, ← kept_part i s s₁ d, ← moved_part i m s s₁ count d) h.jobs;
    events = rw (gone, deletions, ← moved_part i m s s₁ count d, ← d.event) h.events;
    same_registry = h.same_registry ∙ d.same_registry;
    same_printers = h.same_printers ∙ d.same_printers;
  }

  expiry_loop-Swept :
      (fuel now i m : ℕ) (s : Spooler P)
      → s.job_count ≡ i + m
      → m ≤ fuel
      → Swept now i m s (expiry_loop fuel now i s)
  unfolding expiry_loop
  expiry_loop-Swept zero now i zero s e h = Swept-end now i s (omega arith)
  expiry_loop-Swept zero now i (suc m) s e h = elim h [ ]
  expiry_loop-Swept (suc fuel) now i zero s e h =
      rw (ltb-false i s.job_count (omega arith)) (Swept-end now i s (omega arith))
  expiry_loop-Swept (suc fuel) now i (suc m) s e h =
      rw (lt→ltb i s.job_count (omega arith)) (elim (Bool-cases (is_expired now (s.job_spool i))) [
        | inl gone ↦
            let d = remove_job-Removed i s (omega arith) in
            rw gone (
              Swept-Removed now i m s (remove_job i s) _ e gone d (
                expiry_loop-Swept fuel now i m (remove_job i s) (omega (arith, d.fewer))
                  (omega arith)))
        | inr keep ↦ rw keep (
            Swept-kept now i m s _ keep
              (expiry_loop-Swept fuel now (suc i) m s (omega arith) (omega arith)))
      ])

  -- A clean-up removes exactly the jobs that are FINISHED or ABORTED for ten seconds or more at the
  -- time that it reads first; it keeps the others in order, reports each removal by one event, in
  -- order, and leaves the printers alone. The loop reaches the end of the table.
  pub delete_expired-refines :
      (s : Spooler P)
      → let now = (P.time s.world).0 in
        let s' = delete_expired_jobs_if_needed s in
        (jobs_of s' ≡ unexpired now (jobs_of s))
        × (s'.trace ≡ deletions now (jobs_of s) s.trace)
        × (s'.printer_registry ≡ s.printer_registry)
        × (s'.number_of_registered_printers ≡ s.number_of_registered_printers)
  unfolding delete_expired_jobs_if_needed
  delete_expired-refines s =
      let swept =
        expiry_loop-Swept s.job_count (P.time s.world).0 0 s.job_count
          (record s { world = (P.time s.world).1 }) (omega arith) (omega arith) in
      (swept.jobs, swept.events, swept.same_registry, swept.same_printers)
