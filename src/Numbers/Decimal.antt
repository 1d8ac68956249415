-- ===== src/Numbers/Decimal.antt =====
-- The numbers that the program prints with %d, and `atoi` on them.
use posix_printer_spooler.Prelude.{
  ℕ, zero, suc, ◌+◌, ◌/◌, ◌%◌, ◌<◌, ◌≡◌, ◌∙◌, ap, pos, true, false, [], ◌∷◌, arith, ltb,
  if◌then◌else◌, Bool-cases, inl, inr,
}
use posix_printer_spooler.Text.{Text}
use posix_printer_spooler.Tokens.{skip_spaces}
use posix_printer_spooler.Tokens.Layout.{AllBytes, IsWord}
use posix_printer_spooler.Numbers.{is_digit, digits_value, signed_value, atoi}

-- The digits of a number in front of others; a fuel above the number is enough.
unfoldable pub digits_onto : ℕ → ℕ → Text → Text
digits_onto zero n out = out
digits_onto (suc fuel) n out =
    let more = digits_onto fuel (n / 10) ((b'0' + n % 10) ∷ out) in
    if ltb n 10 then (b'0' + n) ∷ out else more

-- The text of a number.
abbrev pub decimal : ℕ → Text
decimal n = digits_onto (suc n) n []

-- Digits only, and at least one.
abbrev pub AllDigits : Text → Type 0
AllDigits [] = Unit
AllDigits (c ∷ s) = (is_digit c ≡ true) × AllDigits s

abbrev pub IsNumeral : Text → Type 0
IsNumeral [] = ⊥
IsNumeral (c ∷ s) = AllDigits (c ∷ s)

digits_onto-value :
    (fuel n : ℕ) (out : Text)
    → n < fuel
    → digits_value 0 (digits_onto fuel n out) ≡ digits_value n out
unfolding digits_onto digits_value
digits_onto-value zero n out h = absurd (omega arith)
digits_onto-value (suc fuel) n out h =
    ground (arith, digits_onto-value fuel (n / 10) ((b'0' + n % 10) ∷ out))

digits_onto-IsNumeral :
    (fuel n : ℕ) (out : Text) → n < fuel → AllDigits out → IsNumeral (digits_onto fuel n out)
unfolding digits_onto
digits_onto-IsNumeral zero n out h d = absurd (omega arith)
digits_onto-IsNumeral (suc fuel) n out h d = elim (Bool-cases (ltb n 10)) [
  | inl small ↦ rw small (ground (arith, d))
  | inr large ↦ rw large (
      digits_onto-IsNumeral fuel (n / 10) ((b'0' + n % 10) ∷ out) (ground (arith, large))
        (ground (arith, d)))
]

pub decimal-IsNumeral : (n : ℕ) → IsNumeral (decimal n)
decimal-IsNumeral n = digits_onto-IsNumeral (suc n) n [] (omega arith) tt

AllDigits-AllBytes : (s : Text) → AllDigits s → AllBytes false s
AllDigits-AllBytes [] d = tt
AllDigits-AllBytes (c ∷ s) d = (ground (arith, d.0), AllDigits-AllBytes s d.1)

pub IsNumeral-IsWord : (s : Text) → IsNumeral s → IsWord s
IsNumeral-IsWord [] d = elim d [ ]
IsNumeral-IsWord (c ∷ s) d = AllDigits-AllBytes (c ∷ s) d

atoi-digits : (s : Text) → IsNumeral s → atoi s ≡ pos (digits_value 0 s)
unfolding atoi skip_spaces signed_value
atoi-digits [] d = elim d [ ]
atoi-digits (c ∷ s) d = ground (arith, d.0)

-- `atoi` reads back every number that the program prints.
pub atoi-decimal : (n : ℕ) → atoi (decimal n) ≡ pos n
unfolding digits_value
atoi-decimal n =
    atoi-digits (decimal n) (decimal-IsNumeral n)
    ∙ ap (λ k. pos k) (digits_onto-value (suc n) n [] (omega arith))
