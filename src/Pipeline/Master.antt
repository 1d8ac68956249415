-- ===== src/Pipeline/Master.antt =====
-- The master's loop: the stages form a chain from the file to the printer, and no descriptor leaks.
use mathlib.Core.Path.{subst}
use posix_printer_spooler.Prelude.{
  ℕ, suc, ◌≡◌, ◌≢◌, refl, sym, ap, ◌∙◌, inl, inr, Option, none, some, List, [], ◌∷◌, arith,
  ℕ_discrete, Bool-cases, Option-cases,
}
use posix_printer_spooler.Text.{Text}
use posix_printer_spooler.Platform.{Conversion}
use posix_printer_spooler.Pipeline.{
  Channel, reader, writer, Kernel, IsPosix, Work, Stage, stages, stage_child, close_previous,
  launch_stages, pipeline_master,
}
use posix_printer_spooler.Pipeline.Wiring.{Wired, source, sink, without, Source}
use posix_printer_spooler.Pipeline.Chain.{Between, Between-without, stage_child-Wired}
use posix_printer_spooler.Pipeline.Rounds.{
  IsChain, IsStandard, Piped, pipe-Piped, free_base, new_without, same_without, free_high,
  Piped-Source, get-close_previous,
}

module _ (K : Kernel) (posix : IsPosix K) where
  Between-Source :
      (job : Work) (prev : Option ℕ) (src : Channel) (base t : K.Files)
      → IsStandard K posix base
      → Between K posix job prev src base t
      → Source K job prev src t
  Between-Source job none src base t st b = b.0
  Between-Source job (some fd) src base t st b =
      (b.0, λ e. st.0 (sym (ap (λ (x : ℕ). K.get x base) e) ∙ b.1))

  last-Wired :
      (job : Work) (prev : Option ℕ) (src : Channel) (args : List Text) (base t : K.Files)
      → IsStandard K posix base
      → Between K posix job prev src base t
      → Wired K base src (sink job) args (stage_child K job prev none args t)
  last-Wired job prev src args base t st b =
      stage_child-Wired K posix job prev none src (sink job) args base t
        (Between-Source job prev src base t st b) refl
        (λ e. st.0 (free_base K posix job prev src base t 0 b e))
        (λ e. st.1 (sym (Between-without K posix job prev src base t b 1) ∙ e))
        (λ k high. Between-without K posix job prev src base t b k)

  kept :
      (job : Work) (prev : Option ℕ) (src : Channel) (r w i : ℕ) (base t t₁ : K.Files)
      → Between K posix job prev src base t
      → Piped K posix r w i t t₁
      → (k : ℕ) → k ≢ r
      → k ≢ w
      → without K prev t₁ k ≡ K.get k base
  kept job prev src r w i base t t₁ b p k ne ne' =
      same_without K posix prev t t₁ k (p.same k ne ne')
      ∙ Between-without K posix job prev src base t b k

  middle-Wired :
      (job : Work) (prev : Option ℕ) (src : Channel) (args : List Text) (r w i : ℕ)
      (base t t₁ : K.Files)
      → IsStandard K posix base
      → Between K posix job prev src base t
      → Piped K posix r w i t t₁
      → Wired K base src (writer i) args (stage_child K job prev (some (r, w)) args t₁)
  middle-Wired job prev src args r w i base t t₁ st b p =
      let base_r = free_base K posix job prev src base t r b p.free_r in
      let base_w = free_base K posix job prev src base t w b p.free_w in
      let high_r = free_high K posix base r st base_r in
      let high_w = free_high K posix base w st base_w in
      stage_child-Wired K posix job prev (some (r, w)) src (writer i) args base t₁
        (Piped-Source K posix job prev src r w i base t t₁ st b p)
        (new_without K posix job prev src base t t₁ w b p.free_w ∙ p.at_w, p.differ, high_w, high_r)
        (λ e. st.0 (
          free_base K posix job prev src base t 0 b
            (sym (p.same 0 (omega arith) (omega arith)) ∙ e)))
        (λ e. st.1 (sym (kept job prev src r w i base t t₁ b p 1 (omega arith) (omega arith)) ∙ e))
        (λ k high. elim (ℕ_discrete k r) [
          | yes is_r ↦ ground (arith, is_r, ap (λ (x : ℕ). K.get x base) is_r, base_r)
          | no ne ↦ elim (ℕ_discrete k w) [
            | yes is_w ↦ ground (arith, ne, is_w, ap (λ (x : ℕ). K.get x base) is_w, base_w)
            | no ne' ↦ ground (arith, ne, ne', kept job prev src r w i base t t₁ b p k ne ne')
          ]
        ])

  -- The table of the master after a round that has made a pipe.
  next-Between :
      (job : Work) (prev : Option ℕ) (src : Channel) (r w i : ℕ) (base t t₁ : K.Files)
      → Between K posix job prev src base t
      → Piped K posix r w i t t₁
      → Between K posix job (some r) (reader i) base (K.close w (close_previous K prev t₁))
  next-Between job prev src r w i base t t₁ b p =
      let t₂ = close_previous K prev t₁ in
      (
        posix.close-others w r t₂ (λ e. p.differ (sym e))
            ∙ get-close_previous K posix prev t₁ r
            ∙ new_without K posix job prev src base t t₁ r b p.free_r
            ∙ p.at_r,
        free_base K posix job prev src base t r b p.free_r,
        λ k ne. elim (ℕ_discrete k w) [
          | yes is_w ↦
              ap (λ (x : ℕ). K.get x (K.close w t₂)) is_w
              ∙ posix.get-close w t₂
              ∙ sym (free_base K posix job prev src base t w b p.free_w)
              ∙ sym (ap (λ (x : ℕ). K.get x base) is_w)
          | no ne' ↦
              posix.close-others w k t₂ ne'
              ∙ get-close_previous K posix prev t₁ k
              ∙ kept job prev src r w i base t t₁ b p k ne ne'
        ],
      )

  -- Where the master reaches its wait: the chain, and a table like the spooler's.
  abbrev Outcome :
      Work → Channel → ℕ → List (List Text) → K.Files → List (Stage K) × Option K.Files → Type 0
  Outcome job src i todo base (procs, none) = Unit
  Outcome job src i todo base (procs, some end) =
      IsChain K base job src i todo procs × ((k : ℕ) → K.get k end ≡ K.get k base)

  Outcome-cons :
      (job : Work) (src : Channel) (i : ℕ) (args more : List Text) (rest : List (List Text))
      (base : K.Files) (p : Stage K) (result : List (Stage K) × Option K.Files)
      → Wired K base src (writer i) args p
      → Outcome job (reader i) (suc i) (more ∷ rest) base result
      → Outcome job src i (args ∷ (more ∷ rest)) base (p ∷ result.0, result.1)
  Outcome-cons job src i args more rest base p (procs, none) w o = tt
  Outcome-cons job src i args more rest base p (procs, some end) w o = ((w, o.0), o.1)

  launch-Outcome :
      (job : Work) (i : ℕ) (args : List Text) (rest : List (List Text)) (prev : Option ℕ)
      (src : Channel) (base t : K.Files)
      → IsStandard K posix base
      → Between K posix job prev src base t
      → Outcome job src i (args ∷ rest) base (launch_stages K job i (args ∷ rest) prev t)
  unfolding launch_stages
  launch-Outcome job i args [] prev src base t st b = elim (Bool-cases (K.forks i)) [
    | inr refused ↦ rw (launch_stages, refused) tt
    | inl forked ↦
        rw (launch_stages, forked)
          (
            last-Wired job prev src args base t st b,
            λ k.
                get-close_previous K posix prev t k
                ∙ Between-without K posix job prev src base t b k,
          )
  ]
  launch-Outcome job i args (more ∷ rest) prev src base t st b = elim (Option-cases (K.pipe i t)) [
    | inl refused ↦ rw (launch_stages, refused) tt
    | inr ((r, w, t₁), piped) ↦ elim (Bool-cases (K.forks i)) [
      | inr refused ↦ rw (launch_stages, piped, refused) tt
      | inl forked ↦
          let p = pipe-Piped K posix i r w t t₁ piped in
          rw (launch_stages, piped, forked)
            (Outcome-cons job src i args more rest base
              (stage_child K job prev (some (r, w)) args t₁)
              (launch_stages K job (suc i) (more ∷ rest) (some r)
                (K.close w (close_previous K prev t₁)))
              (middle-Wired job prev src args r w i base t t₁ st b p)
              (launch-Outcome job (suc i) more rest (some r) (reader i) base
                (K.close w (close_previous K prev t₁)) st
                (next-Between job prev src r w i base t t₁ b p)))
    ]
  ]

  stages-Outcome :
      (job : Work) (path : Option (List Conversion)) (base : K.Files)
      → IsStandard K posix base
      → Outcome job
          (source job)
          0
          (stages path)
          base
          (launch_stages K job 0 (stages path) none base)
  stages-Outcome job none base st =
      launch-Outcome job 0 _ [] none (source job) base base st (refl, λ k. refl)
  stages-Outcome job (some []) base st =
      launch-Outcome job 0 _ [] none (source job) base base st (refl, λ k. refl)
  stages-Outcome job (some (c ∷ cs)) base st =
      launch-Outcome job 0 c.cmd_and_args _ none (source job) base base st (refl, λ k. refl)

  -- Where the master of a pipeline reaches its wait, and the spooler's standard input and output are
  -- open: there is one process for each command (for `cat` alone without a conversion), in order; each
  -- that gets to `execvp` runs its command, the first reads the job's file, each other one reads the
  -- pipe that its predecessor writes, and the last writes to the job's printer. No process keeps an
  -- end of a pipe beside these, and the master keeps none.
  pub pipeline_master-IsChain :
      (job : Work) (path : Option (List Conversion)) (t end : K.Files) (procs : List (Stage K))
      → IsStandard K posix t
      → pipeline_master K job path t ≡ (procs, some end)
      → IsChain K t job (source job) 0 (stages path) procs × ((k : ℕ) → K.get k end ≡ K.get k t)
  unfolding pipeline_master
  pipeline_master-IsChain job path t end procs st e =
      subst (Outcome job (source job) 0 (stages path) t) e (stages-Outcome job path t st)
