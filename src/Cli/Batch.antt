-- ===== src/Cli/Batch.antt =====
-- The loop of run_cli in batch mode, against a description of it over the lines of the file.
use posix_printer_spooler.Prelude.{
  ℕ, zero, suc, ◌-◌, ◌≤◌, ◌<◌, ◌≡◌, refl, ap, ◌∙◌, ℤ, success, failure, Bool, false, List, [], ◌∷◌,
  ◌++◌, ◌||◌, map, arith, ◌==◌, if◌then◌else◌,
}
use posix_printer_spooler.Text.{Text}
use posix_printer_spooler.Platform.{Platform}
use posix_printer_spooler.Spooler.{Spooler}
use posix_printer_spooler.Tokens.{length}
use posix_printer_spooler.Cli.{
  read_line, cut_newline, process_line, batch_loop, initialize, run_cli_batch,
}

-- A byte in front of the first piece, or a piece of its own.
abbrev extend : ℕ → List Text → List Text
extend c [] = (c ∷ []) ∷ []
extend c (p ∷ ps) = (c ∷ p) ∷ ps

-- The file cut at each newline, and where no newline comes in time, after 1023 bytes; `room` bytes
-- fit the first piece.
unfoldable pub pieces : ℕ → Text → List Text
pieces room [] = []
pieces room (c ∷ file) =
    let new = pieces 1023 file in
    let same = pieces (room - 1) file in
    if c == b'\n' then [] ∷ new else if room == 1 then (c ∷ []) ∷ new else extend c same

-- The bytes before the first NUL.
unfoldable pub c_string : Text → Text
c_string [] = []
c_string (c ∷ p) = if c == 0 then [] else c ∷ c_string p

-- The lines of a file: its pieces of at most 1023 bytes, each up to its first NUL.
abbrev pub file_lines : Text → List Text
file_lines file = map c_string (pieces 1023 file)

-- The bytes before the first newline.
until_newline : Text → Text
until_newline [] = []
until_newline (c ∷ p) = let rest = until_newline p in if c == b'\n' then [] else c ∷ rest

cut_newline-c_string : (p : Text) → cut_newline p ≡ c_string (until_newline p)
unfolding cut_newline c_string until_newline
cut_newline-c_string [] = refl
cut_newline-c_string (c ∷ p) = ground (arith, cut_newline-c_string p)

-- The buffer that `fgets` fills holds the first piece and its newline, and the rest of the file the
-- other pieces.
read_line-pieces :
    (room c : ℕ) (file : Text)
    → pieces (suc room) (c ∷ file)
      ≡ until_newline (read_line (suc room) (c ∷ file)).0
        ∷ pieces 1023 (read_line (suc room) (c ∷ file)).1
unfolding pieces read_line until_newline
read_line-pieces zero c file = ground arith
read_line-pieces (suc room) c [] = ground arith
read_line-pieces (suc room) c (d ∷ file) = ground (arith, read_line-pieces room d file)

read_line-length : (room : ℕ) (file : Text) → length (read_line room file).1 ≤ length file
unfolding read_line
read_line-length zero file = omega arith
read_line-length (suc room) [] = omega arith
read_line-length (suc room) (c ∷ file) = ground (arith, read_line-length room file)

read_line_shorter :
    (room c : ℕ) (file : Text) → length (read_line (suc room) (c ∷ file)).1 ≤ length file
unfolding read_line
read_line_shorter room c file = ground (arith, read_line-length room file)

file_lines_nil : file_lines [] ≡ []
unfolding pieces
file_lines_nil = refl

-- No newline and no NUL.
abbrev pub IsPlain : Text → Type 0
IsPlain [] = Unit
IsPlain (c ∷ line) = ((c == b'\n' || c == 0) ≡ false) × IsPlain line

-- Each line fits the buffer of 1024 bytes, with its newline and the final NUL.
abbrev pub AreLines : List Text → Type 0
AreLines [] = Unit
AreLines (l ∷ ls) = IsPlain l × (length l < 1023) × AreLines ls

-- The bytes of a file of such lines.
abbrev pub unlines : List Text → Text
unlines [] = []
unlines (l ∷ ls) = l ++ (b'\n' ∷ unlines ls)

pieces-line :
    (room : ℕ) (line rest : Text)
    → IsPlain line
    → length line < room
    → pieces room (line ++ (b'\n' ∷ rest)) ≡ line ∷ pieces 1023 rest
unfolding pieces
pieces-line room [] rest plain short = refl
pieces-line room (c ∷ line) rest (byte, plain) short =
    ground (arith, byte, pieces-line (room - 1) line rest plain)

c_string_plain : (line : Text) → IsPlain line → c_string line ≡ line
unfolding c_string
c_string_plain [] plain = refl
c_string_plain (c ∷ line) (byte, plain) = ground (arith, byte, c_string_plain line plain)

-- The lines of a file that was written line by line.
pub file_lines-unlines : (ls : List Text) → AreLines ls → file_lines (unlines ls) ≡ ls
file_lines-unlines [] lines = file_lines_nil
file_lines-unlines (l ∷ ls) (plain, short, lines) =
    rw (pieces-line 1023 l (unlines ls) plain short, c_string_plain l plain)
      (ap (λ r. l ∷ r) (file_lines-unlines ls lines))

module _ {P : Platform} where
  -- What the loop does on a list of lines: each line in turn, until one quits.
  unfoldable pub run_lines : List Text → Spooler P → ℤ × Spooler P
  run_lines [] s = (success, s)
  run_lines (l ∷ ls) s =
      let (quit, s₁) = process_line l s in
      let rest = run_lines ls s₁ in if quit then (failure, s₁) else rest

  abbrev after_line : Bool × Spooler P → ℤ × Spooler P → ℤ × Spooler P
  after_line (quit, s₁) rest = if quit then (failure, s₁) else rest

  batch_loop-file_lines :
      (fuel : ℕ) (file : Text) (s : Spooler P)
      → length file < fuel
      → batch_loop fuel file s ≡ run_lines (file_lines file) s
  unfolding run_lines batch_loop
  batch_loop-file_lines zero file s enough = absurd (omega arith)
  batch_loop-file_lines (suc fuel) [] s enough = rw file_lines_nil refl
  batch_loop-file_lines (suc fuel) (c ∷ file) s enough =
      let (buffer, rest) = read_line 1023 (c ∷ file) in
      let l = c_string (until_newline buffer) in
      rw (read_line-pieces 1022 c file, cut_newline-c_string buffer)
        (ap (after_line (process_line l s)) (
          batch_loop-file_lines fuel rest (process_line l s).1
            (omega (arith, read_line_shorter 1022 c file))))

  -- On every file batch mode ends, and does what the lines of the file say one by one: each is handled
  -- once and in order, up to the line that quits or to the end of the file. A line of more than 1022
  -- bytes is several lines, of 1023 bytes but for the last, and a NUL ends its line.
  pub run_cli_batch-file_lines :
      (file : Text) (s : Spooler P)
      → run_cli_batch file s ≡ run_lines (file_lines file) (initialize s)
  unfolding run_cli_batch
  run_cli_batch-file_lines file s =
      batch_loop-file_lines (suc (length file)) file (initialize s) (omega arith)

  -- On a file whose lines fit the buffer, batch mode ends, and does what its lines say one by one:
  -- each is handled once and in order, up to the line that quits or to the end of the file.
  pub run_cli_batch-lines :
      (ls : List Text) (s : Spooler P)
      → AreLines ls
      → run_cli_batch (unlines ls) s ≡ run_lines ls (initialize s)
  run_cli_batch-lines ls s h =
      run_cli_batch-file_lines (unlines ls) s
      ∙ ap (λ lines. run_lines lines (initialize s)) (file_lines-unlines ls h)
