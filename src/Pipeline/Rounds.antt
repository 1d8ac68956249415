-- ===== src/Pipeline/Rounds.antt =====
-- A round of the master's loop, and the loop: the stages form a chain, and no descriptor leaks.
use posix_printer_spooler.Prelude.{
  ℕ, zero, suc, ◌≤◌, ◌≡◌, ◌≢◌, refl, sym, ap, ◌∙◌, Option, none, some, List, [], ◌∷◌, arith,
  ℕ_discrete,
}
use posix_printer_spooler.Text.{Text}
use posix_printer_spooler.Pipeline.{
  Channel, reader, writer, Kernel, IsPosix, Work, Stage, close_previous,
}
use posix_printer_spooler.Pipeline.Wiring.{Wired, sink, without, Source}
use posix_printer_spooler.Pipeline.Chain.{Between}

-- The processes, from stage `i` on, that reads `src`: one for each command, each wired to the next.
abbrev pub IsChain :
    (K : Kernel) → K.Files → Work → Channel → ℕ → List (List Text) → List (Stage K) → Type 0
IsChain K base job src i [] [] = Unit
IsChain K base job src i (args ∷ []) (p ∷ []) = Wired K base src (sink job) args p
IsChain K base job src i (args ∷ (more ∷ rest)) (p ∷ ps) =
    Wired K base src (writer i) args p × IsChain K base job (reader i) (suc i) (more ∷ rest) ps
IsChain K base job src i _ _ = ⊥

module _ (K : Kernel) (posix : IsPosix K) where
  -- The standard input and output of the spooler are open.
  abbrev pub IsStandard : K.Files → Type 0
  IsStandard t = (K.get 0 t ≢ none) × (K.get 1 t ≢ none)

  pub record Piped (r w i : ℕ) (t t₁ : K.Files) : Type 0 where
    pub differ : w ≢ r
    pub at_r : K.get r t₁ ≡ some (reader i)
    pub at_w : K.get w t₁ ≡ some (writer i)
    pub free_r : K.get r t ≡ none
    pub free_w : K.get w t ≡ none
    pub same : (k : ℕ) → k ≢ r → k ≢ w → K.get k t₁ ≡ K.get k t

  pub pipe-Piped : (i r w : ℕ) (t t₁ : K.Files) → K.pipe i t ≡ some (r, w, t₁) → Piped r w i t t₁
  pipe-Piped i r w t t₁ e =
      let (mid, o, o') = posix.pipe-opens i r w t t₁ e in
      let differ : w ≢ r =
        λ same. ground (arith, sym (ap (λ (x : ℕ). K.get x mid) same) ∙ o'.fresh, o.now) in
      record {
        differ = differ;
        at_r = o'.others r (λ same. differ (sym same)) ∙ o.now;
        at_w = o'.now;
        free_r = o.fresh;
        free_w = sym (o.others w differ) ∙ o'.fresh;
        same = λ k ne ne'. o'.others k ne' ∙ o.others k ne;
      }

  pub free_base :
      (job : Work) (prev : Option ℕ) (src : Channel) (base t : K.Files) (k : ℕ)
      → Between K posix job prev src base t
      → K.get k t ≡ none
      → K.get k base ≡ none
  free_base job none src base t k b free = sym (b.1 k) ∙ free
  free_base job (some fd) src base t k b free = elim (ℕ_discrete k fd) [
    | yes same ↦ ap (λ (x : ℕ). K.get x base) same ∙ b.1
    | no ne ↦ sym (b.2 k ne) ∙ free
  ]

  pub new_without :
      (job : Work) (prev : Option ℕ) (src : Channel) (base t t₁ : K.Files) (k : ℕ)
      → Between K posix job prev src base t
      → K.get k t ≡ none
      → without K prev t₁ k ≡ K.get k t₁
  new_without job none src base t t₁ k b free = refl
  new_without job (some fd) src base t t₁ k b free = elim (ℕ_discrete k fd) [
    | yes same ↦ ground (arith, sym (ap (λ (x : ℕ). K.get x t) same) ∙ free, b.0)
    | no ne ↦ ground (arith, ne)
  ]

  pub same_without :
      (prev : Option ℕ) (t t₁ : K.Files) (k : ℕ)
      → K.get k t₁ ≡ K.get k t
      → without K prev t₁ k ≡ without K prev t k
  same_without none t t₁ k e = e
  same_without (some fd) t t₁ k e = ground (arith, e)

  -- A descriptor that was free before the pipe is above the standard ones.
  pub free_high : (base : K.Files) (k : ℕ) → IsStandard base → K.get k base ≡ none → 2 ≤ k
  free_high base zero st free = absurd (st.0 free)
  free_high base (suc zero) st free = absurd (st.1 free)
  free_high base (suc (suc k)) st free = omega arith

  pub Piped-Source :
      (job : Work) (prev : Option ℕ) (src : Channel) (r w i : ℕ) (base t t₁ : K.Files)
      → IsStandard base
      → Between K posix job prev src base t
      → Piped r w i t t₁
      → Source K job prev src t₁
  Piped-Source job none src r w i base t t₁ st b p = b.0
  Piped-Source job (some fd) src r w i base t t₁ st b p = (
    p.same fd (λ e. ground (arith, sym (ap (λ (x : ℕ). K.get x t) e) ∙ b.0, p.free_r))
          (λ e. ground (arith, sym (ap (λ (x : ℕ). K.get x t) e) ∙ b.0, p.free_w))
        ∙ b.0,
    λ e. st.0 (sym (ap (λ (x : ℕ). K.get x base) e) ∙ b.1),
  )

  pub get-close_previous :
      (prev : Option ℕ) (t : K.Files) (k : ℕ)
      → K.get k (close_previous K prev t) ≡ without K prev t k
  get-close_previous none t k = refl
  get-close_previous (some fd) t k = elim (ℕ_discrete k fd) [
    | yes same ↦
        ground (arith, same, ap (λ (x : ℕ). K.get x (K.close fd t)) same, posix.get-close fd t)
    | no ne ↦ ground (arith, ne, posix.close-others fd k t ne)
  ]
