-- ===== src/Jobs/Typing.antt =====
-- The pipelines that a scheduling pass forks: the file's type, the conversions, the printer's type.
pub mod Pass
use posix_printer_spooler.Prelude.{
  ℕ, ◌<◌, ◌≡◌, refl, inl, inr, is_negative, true, Option, none, some, List, [], ◌∷◌, arith,
  Bool-cases, Option-cases,
}
use posix_printer_spooler.Text.{Text, text_eq, text_eq→eq}
use posix_printer_spooler.Platform.{FileType, Conversion, Platform}
use posix_printer_spooler.Spooler.{
  Spooler, Job, created, idle, Effect, forked, printer_type, job_status, printer_status,
  job_started,
}
use posix_printer_spooler.Printers.{select_compatible_printer}
use posix_printer_spooler.Printers.Selection.{Suitable, select-Selects}
use posix_printer_spooler.Jobs.{
  is_created, job_type, set_target, mark_running, launch, start_on, schedule_job,
}
use posix_printer_spooler.Jobs.Scheduling.{launch_failed, launch_started}

-- The conversions lead from the one type to the other, each beginning where the last one ends.
abbrev pub Links : Text → Text → List Conversion → Type 0
Links from to [] = from ≡ to
Links from to (c ∷ path) = (c.from.name ≡ from) × Links c.to.name to path

-- No path is passed where the types are the same.
abbrev pub IsRoute : Text → Text → Option (List Conversion) → Type 0
IsRoute from to none = from ≡ to
IsRoute from to (some path) = Links from to path

-- The events of `new` that are not those of `old`, which come first, are such that `Q`.
pub data Since (Q : Effect → Type 0) (old : List Effect) : List Effect → Type 0 where
  nothing_new : Since Q old old
  and_then : {trace : List Effect} (e : Effect) → Q e → Since Q old trace → Since Q old (e ∷ trace)

pub Since-trans :
    {Q : Effect → Type 0} {a b c : List Effect} → Since Q a b → Since Q b c → Since Q a c
Since-trans first nothing_new = first
Since-trans first (and_then e q rest) = and_then e q (Since-trans first rest)

pub Since-map :
    {Q R : Effect → Type 0} {a b : List Effect}
    → ((e : Effect) → Q e → R e)
    → Since Q a b
    → Since R a b
Since-map f nothing_new = nothing_new
Since-map f (and_then e q rest) = and_then e (f e q) (Since-map f rest)

module _ {P : Platform} where
  -- The job that is in slot `i` of the state `s` can be printed by this pipeline: it waits, the printer
  -- that is its target is registered and IDLE, and the conversions lead from the file's type to the
  -- printer's.
  pub record IsTyped (s : Spooler P) (i : ℕ) (job : Job) (path : Option (List Conversion))
      : Type 0 where
    pub printer : ℕ
    pub from_type : FileType
    pub is_job : job ≡ record (s.job_spool i) { target_printer = some printer }
    pub waits : (s.job_spool i).status ≡ created
    pub registered : printer < s.number_of_registered_printers
    pub is_free : (s.printer_registry printer).status ≡ idle
    pub known : job_type i s ≡ some from_type
    pub route : IsRoute from_type.name (printer_type printer s) path

  -- An event that is a fork is that of such a pipeline, for the job in slot `i`.
  abbrev pub IsTypedFor : Spooler P → ℕ → Effect → Type 0
  IsTypedFor s i (forked pid job path) = IsTyped s i job path
  IsTypedFor s i _ = Unit

  launch-Since :
      (i p : ℕ) (path : Option (List Conversion)) (s : Spooler P)
      → IsTyped s i ((set_target i (some p) s).job_spool i) path
      → Since (IsTypedFor s i) s.trace (launch i p path (set_target i (some p) s)).trace
  unfolding mark_running
  launch-Since i p path s typed = elim (Bool-cases (is_negative (P.fork s.world).0)) [
    | inl failed ↦ rw (launch_failed i p path (set_target i (some p) s) failed) nothing_new
    | inr began ↦
        rw (launch_started i p path (set_target i (some p) s) began)
          (and_then _ tt (and_then _ tt (and_then _ tt (and_then _ typed nothing_new))))
  ]

-- What is documented of `find_conversion_path`: the array describes the path between the types.
abbrev pub IsRouting : Platform → Type 0
IsRouting P =
    (from to : Text) (t : P.Table) (path : List Conversion)
    → P.find_conversion_path from to t ≡ some path
    → Links from to path

module _ {P : Platform} (routing : IsRouting P) where
  start_on-Since :
      (i : ℕ) (t : FileType) (p : ℕ) (s : Spooler P)
      → (s.job_spool i).status ≡ created
      → job_type i s ≡ some t
      → Suitable t s p
      → Since (IsTypedFor s i) s.trace (start_on i t p s).trace
  unfolding start_on
  start_on-Since i t p s waits known fits =
      let typed : (path : Option (List Conversion))
          → IsRoute t.name (printer_type p s) path
          → IsTyped s i ((set_target i (some p) s).job_spool i) path =
        λ path route. record {
          printer = p;
          from_type = t;
          is_job = ground arith;
          waits = waits;
          registered = fits.registered;
          is_free = fits.is_free;
          known = known;
          route = route;
        } in
      elim (Bool-cases (text_eq t.name (printer_type p s))) [
        | inl direct ↦
            rw direct
              (launch-Since i p none s (typed none (text_eq→eq t.name (printer_type p s) direct)))
        | inr other ↦
            elim (Option-cases (P.find_conversion_path t.name (printer_type p s) s.table)) [
              | inl missing ↦ rw (other, missing) nothing_new
              | inr (path, found) ↦
                  rw (other, found)
                    (launch-Since i p (some path) s
                      (typed (some path) (routing t.name (printer_type p s) s.table path found)))
            ]
      ]

  pub schedule_job-Since :
      (i : ℕ) (s : Spooler P) → Since (IsTypedFor s i) s.trace (schedule_job i s).trace
  unfolding schedule_job
  schedule_job-Since i s = elim (Bool-cases (is_created (s.job_spool i).status)) [
    | inr other ↦ rw other nothing_new
    | inl waits ↦ elim (Option-cases (job_type i s)) [
      | inl unknown ↦ rw (waits, unknown) nothing_new
      | inr (t, known) ↦ elim (Option-cases (select_compatible_printer (some t) s)) [
        | inl nobody ↦ rw (waits, known, nobody) nothing_new
        | inr (p, chosen) ↦
            rw (waits, known, chosen)
              (start_on-Since i t p s (ground arith) known (rw chosen at (select-Selects t s)).0)
      ]
    ]
  ]
