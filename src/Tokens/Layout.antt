-- ===== src/Tokens/Layout.antt =====
-- Lines that are built from words and white space, and their tokens.
use posix_printer_spooler.Prelude.{
  ℕ, ◌≡◌, refl, ap, sym, ◌∙◌, ◌≢◌, inl, inr, zero, suc, arith, Bool-cases, Bool, true, false, List,
  [], ◌∷◌, ◌++◌,
}
use posix_printer_spooler.Text.{Text}
use posix_printer_spooler.Tokens.{is_space, split_input_line_into_tokens, max_command_tokens}
use posix_printer_spooler.Tokens.Words.{
  take, attach, starts_word, words, words_space, words_byte, words_nil, split-words,
}

abbrev pub AllBytes : Bool → Text → Type 0
AllBytes space [] = Unit
AllBytes space (c ∷ s) = (is_space c ≡ space) × AllBytes space s

-- A word has a first byte, and no white space.
abbrev pub IsWord : Text → Type 0
IsWord [] = ⊥
IsWord (c ∷ s) = AllBytes false (c ∷ s)

-- What stands between two words.
abbrev pub IsGap : Text → Type 0
IsGap [] = ⊥
IsGap (c ∷ s) = AllBytes true (c ∷ s)

-- A line of words, each with a gap behind it.
abbrev pub lay_out : List (Text × Text) → Text
lay_out [] = []
lay_out ((word, gap) ∷ rest) = word ++ (gap ++ lay_out rest)

abbrev pub firsts : List (Text × Text) → List Text
firsts [] = []
firsts ((word, gap) ∷ rest) = word ∷ firsts rest

abbrev pub IsLayout : List (Text × Text) → Type 0
IsLayout [] = Unit
IsLayout ((word, gap) ∷ rest) = IsWord word × IsGap gap × IsLayout rest

gap-words : (gap line : Text) → AllBytes true gap → words (gap ++ line) ≡ words line
gap-words [] line h = refl
gap-words (c ∷ gap) line (h, hs) = words_space c (gap ++ line) h ∙ gap-words gap line hs

word-words :
    (c d : ℕ) (word line : Text)
    → AllBytes false (c ∷ word)
    → is_space d ≡ true
    → words (c ∷ (word ++ (d ∷ line))) ≡ (c ∷ word) ∷ words (d ∷ line)
word-words c d [] line (h, _) space = rw (words_byte c (d ∷ line) h, space) refl
word-words c d (b ∷ word) line (h, hb) space =
    rw (words_byte c (b ∷ (word ++ (d ∷ line))) h, word-words b d word line hb space, hb.0) refl

pub lay_out-words : (ws : List (Text × Text)) → IsLayout ws → words (lay_out ws) ≡ firsts ws
lay_out-words [] h = words_nil
lay_out-words (([], gap) ∷ rest) h = absurd h.0
lay_out-words ((c ∷ word, []) ∷ rest) h = absurd h.1
lay_out-words ((c ∷ word, d ∷ gap) ∷ rest) (w, (space, g), h) =
    word-words c d word (gap ++ lay_out rest) w space
    ∙ ap (λ ws. (c ∷ word) ∷ ws)
        (words_space d (gap ++ lay_out rest) space
          ∙ gap-words gap (lay_out rest) g
          ∙ lay_out-words rest h)

-- A line of words, with any white space in front of the first and behind each, gives the words back,
-- as long as there are at most 32 of them, and else the first 32.
pub split-lay_out :
    (front : Text) (ws : List (Text × Text))
    → AllBytes true front
    → IsLayout ws
    → split_input_line_into_tokens (front ++ lay_out ws) ≡ take max_command_tokens (firsts ws)
split-lay_out front ws f h =
    split-words (front ++ lay_out ws)
    ∙ ap (take max_command_tokens) (gap-words front (lay_out ws) f ∙ lay_out-words ws h)

abbrev pub AllWords : List Text → Type 0
AllWords [] = Unit
AllWords (w ∷ ws) = IsWord w × AllWords ws

attach-AllWords :
    (c : ℕ) (b : Bool) (ws : List Text)
    → is_space c ≡ false
    → AllWords ws
    → AllWords (attach c b ws)
attach-AllWords c true [] h _ = ((h, tt), tt)
attach-AllWords c true ([] ∷ ws) h hs = absurd hs.0
attach-AllWords c true ((d ∷ w) ∷ ws) h hs = ((h, hs.0), hs.1)
attach-AllWords c false ws h hs = ((h, tt), hs)

words-AllWords : (line : Text) → AllWords (words line)
words-AllWords [] = rw words_nil tt
words-AllWords (c ∷ line) = elim (Bool-cases (is_space c)) [
  | inl space ↦ rw (words_space c line space) (words-AllWords line)
  | inr letter ↦
      rw (words_byte c line letter)
        (attach-AllWords c (starts_word line) (words line) letter (words-AllWords line))
]

take-AllWords : (n : ℕ) (ws : List Text) → AllWords ws → AllWords (take n ws)
take-AllWords zero ws h = tt
take-AllWords (suc n) [] h = tt
take-AllWords (suc n) (w ∷ ws) h = (h.0, take-AllWords n ws h.1)

-- No token is empty, and none has white space in it.
pub split-AllWords : (line : Text) → AllWords (split_input_line_into_tokens line)
split-AllWords line =
    rw (split-words line) (take-AllWords max_command_tokens (words line) (words-AllWords line))

attach_nonempty : (c : ℕ) (b : Bool) (ws : List Text) → attach c b ws ≢ []
attach_nonempty c true [] e = ground (arith, e)
attach_nonempty c true (w ∷ ws) e = ground (arith, e)
attach_nonempty c false ws e = ground (arith, e)

words_none : (line : Text) → words line ≡ [] → AllBytes true line
words_none [] e = tt
words_none (c ∷ line) e = elim (Bool-cases (is_space c)) [
  | inl space ↦ (space, words_none line (sym (words_space c line space) ∙ e))
  | inr letter ↦
      absurd
        (attach_nonempty c (starts_word line) (words line) (sym (words_byte c line letter) ∙ e))
]

take_none : (n : ℕ) (ws : List Text) → take (suc n) ws ≡ [] → ws ≡ []
take_none n [] e = refl
take_none n (w ∷ ws) e = ground (arith, e)

-- Only a line of white space has no tokens.
pub split_none : (line : Text) → split_input_line_into_tokens line ≡ [] → AllBytes true line
split_none line e = words_none line (take_none 31 (words line) (sym (split-words line) ∙ e))

word_alone : (c : ℕ) (s : Text) → AllBytes false (c ∷ s) → words (c ∷ s) ≡ (c ∷ s) ∷ []
word_alone c [] h = rw (words_byte c [] h.0, words_nil) refl
word_alone c (d ∷ s) h = rw (words_byte c (d ∷ s) h.0, word_alone d s h.1, h.1.0) refl

-- A line of two words with a blank between.
pub split_two :
    (a b : Text) → IsWord a → IsWord b → split_input_line_into_tokens (a ++ (b' ' ∷ b)) ≡ a ∷ b ∷ []
split_two [] b ha hb = elim ha [ ]
split_two (c ∷ a) [] ha hb = elim hb [ ]
split_two (c ∷ a) (d ∷ b) ha hb =
    split-words (c ∷ (a ++ (b' ' ∷ (d ∷ b))))
    ∙ ap (take max_command_tokens) (
        word-words c b' ' a (d ∷ b) ha refl
        ∙ ap (λ ws. (c ∷ a) ∷ ws) (words_space b' ' (d ∷ b) refl ∙ word_alone d b hb))
