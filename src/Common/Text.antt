-- ===== src/Common/Text.antt =====
-- Python's `str`, as the list of its code points: comparison, `str(int)`, `int(str)`, `split`.
-- `int_of` reads plain ASCII digits; the blanks, signs and underscores that `int` also takes are
-- answered by `value_error`.
pub mod Equality
pub mod Decimal
pub mod Split
pub mod Edit
pub mod Suffix
use Prim.Native.Nat.{ℕ, zero, suc, ◌+◌, ◌-◌, ◌*◌, ◌/◌, ◌%◌}
use Prim.Native.Char.{code}
use Prim.Native.String.{String}
use mathlib.Core.Bool.{Bool, true, false, ◌&&◌, ◌||◌}
use mathlib.Core.List.{List, [], ◌∷◌, ◌++◌}
use rapidstream_noc.Common.Tests.{ltb, ◌==◌, if◌then◌else◌}
use rapidstream_noc.Common.Lists.{length}
use rapidstream_noc.Common.Errors.{Result, ok, err, value_error}

abbrev pub Text : Type 0
Text = List ℕ

abbrev pub codes : String → Text
codes String.[] = []
codes (String.◌∷◌ c s) = code c ∷ codes s

unfoldable pub text_eq : Text → Text → Bool
text_eq [] [] = true
text_eq (c ∷ s) (d ∷ t) = c == d && text_eq s t
text_eq _ _ = false

-- The decimal digits of `n`, on fuel above `n`.
unfoldable pub digits : ℕ → ℕ → Text
digits zero n = []
digits (suc f) n =
    let rest = digits f (n / 10) in
    if ltb n 10 then (b'0' + n) ∷ [] else rest ++ (b'0' + n % 10) ∷ []

-- `str(n)`.
unfoldable pub str_of : ℕ → Text
unfolding digits
str_of n = digits (suc n) n

unfoldable pub int_acc : ℕ → Text → Result ℕ
int_acc n [] = ok n
int_acc n (c ∷ s) =
    let rest = int_acc (n * 10 + (c - b'0')) s in
    if ltb c b'0' || ltb b'9' c then err value_error else rest

-- `int(s)`.
unfoldable pub int_of : Text → Result ℕ
unfolding int_acc
int_of [] = err value_error
int_of (c ∷ s) = int_acc 0 (c ∷ s)

-- `s.startswith(p)`.
unfoldable pub starts_with : Text → Text → Bool
starts_with s [] = true
starts_with [] (d ∷ p) = false
starts_with (c ∷ s) (d ∷ p) = c == d && starts_with s p

-- `p in s`.
unfoldable pub contains : Text → Text → Bool
unfolding starts_with
contains [] p = starts_with [] p
contains (c ∷ s) p = starts_with (c ∷ s) p || contains s p

-- The parts of a text between the places where `sep` stands; `skip` counts the characters of a
-- separator still to pass over, `part` is the part so far.
unfoldable pub split_from : Text → ℕ → Text → Text → List Text
unfolding starts_with
split_from sep skip part [] = part ∷ []
split_from sep (suc skip) part (c ∷ s) = split_from sep skip part s
split_from sep zero part (c ∷ s) = elim (starts_with (c ∷ s) sep) [
  | true ↦ part ∷ split_from sep (length sep - 1) [] s
  | false ↦ split_from sep zero (part ++ c ∷ []) s
]

-- `s.split(sep)`, for a separator that is not empty.
unfoldable pub split : Text → Text → List Text
unfolding split_from
split s sep = split_from sep zero [] s
