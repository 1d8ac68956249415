-- ===== src/Pipeline/Chain.antt =====
-- The loop of the master: what its table holds in each round, and the chain of its stages.
use posix_printer_spooler.Prelude.{
  ℕ, ◌≤◌, ◌≡◌, ◌≢◌, refl, sym, ap, ◌∙◌, inl, inr, Option, none, some, List, arith, ℕ_discrete,
  Option-cases, if◌then◌else◌, ◌==◌,
}
use posix_printer_spooler.Text.{Text}
use posix_printer_spooler.Pipeline.{
  Channel, Kernel, IsPosix, Work, set_input, set_output, stage_child,
}
use posix_printer_spooler.Pipeline.Wiring.{
  Wired, source, sink, without, Source, InputOk, OutputOk, Sink, set_input-InputOk,
  set_output-OutputOk,
}

module _ (K : Kernel) where
  -- The table without what a stage closes.
  abbrev pub cleaned : Option ℕ → Option (ℕ × ℕ) → K.Files → ℕ → Option Channel
  cleaned prev none t k = without K prev t k
  cleaned prev (some (r, w)) t k =
      if k == r then none else if k == w then none else without K prev t k

  abbrev pub Next : Work → Option ℕ → Option (ℕ × ℕ) → Channel → K.Files → Type 0
  Next job prev none snk t = snk ≡ sink job
  Next job prev (some (r, w)) snk t = (without K prev t w ≡ some snk) × (w ≢ r) × (2 ≤ w) × (2 ≤ r)

module _ (K : Kernel) (posix : IsPosix K) where
  output-Wired :
      (job : Work) (prev : Option ℕ) (next : Option (ℕ × ℕ)) (src snk : Channel) (args : List Text)
      (base t t₁ : K.Files) (o : Option K.Files)
      → Next K job prev next snk t
      → InputOk K prev src t (some t₁)
      → ((k : ℕ) → 2 ≤ k → cleaned K prev next t k ≡ K.get k base)
      → OutputOk K next snk t₁ o
      → Wired K base src snk args (elim o [ none ↦ none | some f ↦ some (f, args) ])
  output-Wired job prev next src snk args base t t₁ none n i clean o = tt
  output-Wired job prev none src snk args base t t₁ (some f) n i clean o = (
    refl,
    o.1 0 (omega arith) ∙ i.0,
    o.0,
    λ k high. o.1 k (omega arith) ∙ i.1 k (omega arith) ∙ clean k high,
  )
  output-Wired job prev (some (r, w)) src snk args base t t₁ (some f) (_, _, high_w, high_r) i clean
        o =
      (
        refl,
        ground (arith, o.1 0 (omega arith), i.0),
        o.0,
        λ k high. ground (arith, o.1 k (omega arith), i.1 k (omega arith), clean k high),
      )

  Next-Sink :
      (job : Work) (prev : Option ℕ) (next : Option (ℕ × ℕ)) (src snk : Channel) (t t₁ : K.Files)
      → Next K job prev next snk t
      → InputOk K prev src t (some t₁)
      → Sink K job next snk t₁
  Next-Sink job prev none src snk t t₁ n i = n
  Next-Sink job prev (some (r, w)) src snk t t₁ (at_w, ne, high_w, high_r) i =
      (i.1 w (omega arith) ∙ at_w, ne, (omega arith), (omega arith))

  pub stage_child-Wired :
      (job : Work) (prev : Option ℕ) (next : Option (ℕ × ℕ)) (src snk : Channel) (args : List Text)
      (base t : K.Files)
      → Source K job prev src t
      → Next K job prev next snk t
      → K.get 0 t ≢ none
      → without K prev t 1 ≢ none
      → ((k : ℕ) → 2 ≤ k → cleaned K prev next t k ≡ K.get k base)
      → Wired K base src snk args (stage_child K job prev next args t)
  unfolding stage_child
  stage_child-Wired job prev next src snk args base t from n used0 used1 clean =
      elim (Option-cases (set_input K job prev t)) [
        | inl gone ↦ rw (stage_child, gone) tt
        | inr (t₁, fed) ↦
            let i : InputOk K prev src t (some t₁) =
              rw fed at (set_input-InputOk K posix job prev src t from used0) in
            rw (stage_child, fed)
              (output-Wired job prev next src snk args base t t₁ (set_output K job next t₁) n i
                clean
                (set_output-OutputOk K posix job next snk t₁
                  (Next-Sink job prev next src snk t t₁ n i)
                  (λ e. used1 (sym (i.1 1 (omega arith)) ∙ e))))
      ]

  -- The master's table between two rounds: the spooler's, and `prev` besides, which reads `src`.
  abbrev pub Between : Work → Option ℕ → Channel → K.Files → K.Files → Type 0
  Between job none src base t = (src ≡ source job) × ((k : ℕ) → K.get k t ≡ K.get k base)
  Between job (some fd) src base t =
      (K.get fd t ≡ some src)
      × (K.get fd base ≡ none)
      × ((k : ℕ) → k ≢ fd → K.get k t ≡ K.get k base)

  -- The same, as the table without `prev`.
  pub Between-without :
      (job : Work) (prev : Option ℕ) (src : Channel) (base t : K.Files)
      → Between job prev src base t
      → (k : ℕ) → without K prev t k ≡ K.get k base
  Between-without job none src base t b k = b.1 k
  Between-without job (some fd) src base t b k = elim (ℕ_discrete k fd) [
    | yes same ↦ ground (arith, same, b.1, ap (λ (x : ℕ). K.get x base) same)
    | no ne ↦ ground (arith, ne, b.2 k ne)
  ]
