-- ===== src/Toy.antt =====
-- A concrete platform for the tests: a table of types and of direct conversions, a clock that counts
-- its readings, forks that succeed, and signals that are delivered.
use mathlib.Core.Path.{subst}
use mathlib.Core.Option.{some-injective}
use posix_printer_spooler.Prelude.{
  ℕ, ◌+◌, pos, false, ◌&&◌, Option, none, some, List, [], ◌∷◌, if◌then◌else◌, ◌==◌, success,
  is_negative, ◌≡◌, refl, inl, inr, Bool-cases, arith,
}
use posix_printer_spooler.Text.{Text, text_eq, text_eq→eq}
use posix_printer_spooler.Jobs.Typing.{Links, IsRouting}
use posix_printer_spooler.Output.Session.{FindsByName}
use posix_printer_spooler.Platform.{FileType, Conversion, Platform}

pub record ToyTable : Type 0 where
  pub types : List FileType
  pub conversions : List Conversion

unfoldable pub type_named : Text → List FileType → Option FileType
unfolding text_eq
type_named name [] = none
type_named name (t ∷ ts) = if text_eq t.name name then some t else type_named name ts

-- The part behind the first dot.
unfoldable pub extension : Text → Text
extension [] = []
extension (c ∷ s) = if c == b'.' then s else extension s

unfoldable pub conversion_between : Text → Text → List Conversion → Option (List Conversion)
unfolding text_eq
conversion_between from to [] = none
conversion_between from to (c ∷ cs) =
    if text_eq c.from.name from && text_eq c.to.name to
    then some (c ∷ [])
    else conversion_between from to cs

unfoldable pub toy_path : Text → Text → ToyTable → Option (List Conversion)
unfolding conversion_between
toy_path from to t = if text_eq from to then some [] else conversion_between from to t.conversions

unfoldable pub toy_define_type : Text → ToyTable → Option FileType × ToyTable
toy_define_type name t =
    let new : FileType = record { address = 0; name = name; index = 0 } in
    (some new, record t { types = new ∷ t.types })

unfoldable pub toy_define_conversion :
    Text → Text → List Text → ToyTable → Option Conversion × ToyTable
toy_define_conversion from to cmd t =
    let new : Conversion = record {
      from = record { address = 0; name = from; index = 0 };
      to = record { address = 0; name = to; index = 0 };
      cmd_and_args = cmd;
    } in
    (some new, record t { conversions = new ∷ t.conversions })

abbrev pub toy : Platform
toy = record {
  Table = ToyTable;
  define_type = toy_define_type;
  find_type = λ name t. type_named name t.types;
  infer_file_type = λ file t. type_named (extension file) t.types;
  define_conversion = toy_define_conversion;
  find_conversion_path = toy_path;
  World = ℕ;
  time = λ w. (w, w + 1);
  fork = λ w. (pos (w + 1000), w + 1);
  killpg = λ pgid sig w. (success, w);
}

pub toy_forks : (w : ℕ) → is_negative (toy.fork w).0 ≡ false
toy_forks w = refl

conversion_between-Links :
    (from to : Text) (cs path : List Conversion)
    → conversion_between from to cs ≡ some path
    → Links from to path
unfolding conversion_between
conversion_between-Links from to [] path e = ground (arith, e)
conversion_between-Links from to (c ∷ cs) path e =
    elim (Bool-cases (text_eq c.from.name from && text_eq c.to.name to)) [
      | inl hit ↦ subst (Links from to) (some-injective (c ∷ []) path (rw hit at e)) (
        ground (arith, hit, text_eq→eq c.from.name from),
        ground (arith, hit, text_eq→eq c.to.name to),
      )
      | inr miss ↦ conversion_between-Links from to cs path (rw miss at e)
    ]

pub toy_routing : IsRouting toy
unfolding toy_path
toy_routing from to t path e = elim (Bool-cases (text_eq from to)) [
  | inl same ↦
      subst (Links from to) (some-injective [] path (rw same at e)) (text_eq→eq from to same)
  | inr other ↦ conversion_between-Links from to t.conversions path (rw other at e)
]

type_named_lem :
    (name : Text) (types : List FileType) (t : FileType)
    → type_named name types ≡ some t
    → t.name ≡ name
unfolding type_named
type_named_lem name [] t e = ground (arith, e)
type_named_lem name (u ∷ types) t e = elim (Bool-cases (text_eq u.name name)) [
  | inl hit ↦
      subst (λ x. x.name ≡ name) (some-injective u t (rw hit at e)) (text_eq→eq u.name name hit)
  | inr miss ↦ type_named_lem name types t (rw miss at e)
]

pub toy_finds : FindsByName toy
toy_finds name table t found = type_named_lem name table.types t found
