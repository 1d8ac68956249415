-- ===== src/Prelude/Loops.antt =====
-- Counted loops over the slots of an array.
use Prim.Native.Nat.{ℕ, zero, suc, ◌+◌, ◌≤◌, ◌<◌}
use mathlib.Core.Path.{◌≡◌, refl, sym, ◌∙◌}
use mathlib.Core.Bool.{Bool, true, false}
use mathlib.Core.Option.{Option, none, some}
use mathlib.Core.Logic.{inl, inr}
use native.Mathlib.Omega.{arith}
use native.Mathlib.Decide.{dec_lt}
use native.Mathlib.Nat.{add-zero, add-suc, suc-add}
use posix_printer_spooler.Prelude.Tests.{if◌then◌else◌, Bool-cases}

-- `for (j = i; j < i + n; j++) if (test(j)) return j;`
unfoldable pub first_index : (ℕ → Bool) → ℕ → ℕ → Option ℕ
first_index test zero i = none
first_index test (suc n) i = if test i then some i else first_index test n (suc i)

-- What such a search promises, for the range from `i` up to `m`.
abbrev pub IsFirst : (ℕ → Bool) → ℕ → ℕ → Option ℕ → Type 0
IsFirst test i m none = (j : ℕ) → i ≤ j → j < m → test j ≡ false
IsFirst test i m (some k) =
    (i ≤ k) × (k < m) × (test k ≡ true) × ((j : ℕ) → i ≤ j → j < k → test j ≡ false)

IsFirst-step :
    (test : ℕ → Bool) (i m : ℕ) (r : Option ℕ)
    → test i ≡ false
    → IsFirst test (suc i) m r
    → IsFirst test i m r
IsFirst-step test i m none h f = λ j p q. ground (arith, h, f j)
IsFirst-step test i m (some k) h f = (omega arith, f.1, f.2, λ j p q. ground (arith, h, f.3 j))

pub first_index-IsFirst :
    (test : ℕ → Bool) (n i : ℕ) → IsFirst test i (i + n) (first_index test n i)
unfolding first_index
first_index-IsFirst test zero i = λ j p q. absurd (omega arith)
first_index-IsFirst test (suc n) i = elim (Bool-cases (test i)) [
  | inl hit ↦ rw hit (omega arith, omega arith, hit, λ j p q. absurd (omega arith))
  | inr miss ↦ rw miss (
      rw add-suc
        (IsFirst-step test i _ _ miss (rw suc-add at (first_index-IsFirst test n (suc i)))))
]

-- `for (j = i; j < i + n; j++) body(j);`
unfoldable pub for_range {ℓ} : {S : Type ℓ} → (ℕ → S → S) → ℕ → ℕ → S → S
for_range body zero i s = s
for_range body (suc n) i s = for_range body n (suc i) (body i s)

-- A loop keeps what every round keeps.
pub for_range-keeps {ℓ κ} :
    {S : Type ℓ} (P : S → Type κ) (body : ℕ → S → S)
    → ((i : ℕ) (s : S) → P s → P (body i s))
    → (n i : ℕ) (s : S) → P s
    → P (for_range body n i s)
unfolding for_range
for_range-keeps P body keep zero i s h = h
for_range-keeps P body keep (suc n) i s h =
    for_range-keeps P body keep n (suc i) (body i s) (keep i s h)

-- The search has one answer only.
pub IsFirst-unique :
    (test : ℕ → Bool) (i m : ℕ) (r r' : Option ℕ)
    → IsFirst test i m r
    → IsFirst test i m r'
    → r ≡ r'
IsFirst-unique test i m none none h h' = refl
IsFirst-unique test i m none (some k) h h' = ground (arith, h k, h')
IsFirst-unique test i m (some k) none h h' = ground (arith, h' k, h)
IsFirst-unique test i m (some k) (some k') h h' = ground (arith, h.3 k', h'.3 k, h, h')

-- A longer range whose new end fails the test, under a test that agrees on the old range.
pub IsFirst-extend :
    (test test' : ℕ → Bool) (m : ℕ) (r : Option ℕ)
    → ((j : ℕ) → j < m → test' j ≡ test j)
    → test' m ≡ false
    → IsFirst test 0 m r
    → IsFirst test' 0 (suc m) r
IsFirst-extend test test' m none same end h = λ j p q. elim (dec_lt j m) [
  | yes below ↦ same j below ∙ h j p below
  | no above ↦ ground (arith)
]
IsFirst-extend test test' m (some k) same end h =
    (h.0, omega arith, same k h.1 ∙ h.2, λ j p q. same j (omega arith) ∙ h.3 j p q)

-- An invariant that counts the rounds.
pub for_range-counts {ℓ κ} :
    {S : Type ℓ} (P : ℕ → S → Type κ) (body : ℕ → S → S)
    → ((i : ℕ) (s : S) → P i s → P (suc i) (body i s))
    → (n i : ℕ) (s : S) → P i s
    → P (i + n) (for_range body n i s)
unfolding for_range
for_range-counts P body keep zero i s h = rw add-zero h
for_range-counts P body keep (suc n) i s h =
    rw (add-suc, ← suc-add) (for_range-counts P body keep n (suc i) (body i s) (keep i s h))

-- The same, where a round may use that its index is below the end.
pub for_range-within {ℓ κ} :
    {S : Type ℓ} (P : ℕ → S → Type κ) (body : ℕ → S → S) (e : ℕ)
    → ((i : ℕ) (s : S) → i < e → P i s → P (suc i) (body i s))
    → (n i : ℕ) (s : S) → i + n ≡ e
    → P i s
    → P e (for_range body n i s)
unfolding for_range
for_range-within P body e keep zero i s at h = rw (sym at ∙ add-zero i) h
for_range-within P body e keep (suc n) i s at h =
    for_range-within P body e keep n (suc i) (body i s) (omega arith) (keep i s (omega arith) h)
