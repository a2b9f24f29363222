-- ===== src/Common/Text/Edit.antt =====
-- `endswith`, `removesuffix`, `strip('"')` and `replace(old, "")` of Python's `str`.
use Prim.Native.Nat.{ℕ, zero, suc, ◌-◌}
use mathlib.Core.Bool.{Bool, true, false}
use mathlib.Core.List.{[], ◌∷◌, ◌++◌, reverse}
use rapidstream_noc.Common.Tests.{◌==◌, leb, if◌then◌else◌}
use rapidstream_noc.Common.Lists.{length, take}
use rapidstream_noc.Common.Text.{Text, text_eq, starts_with}

-- `s[n:]`.
abbrev pub drop : ℕ → Text → Text
drop zero s = s
drop (suc n) [] = []
drop (suc n) (c ∷ s) = drop n s

-- `s.endswith(p)`.
unfoldable pub ends_with : Text → Text → Bool
ends_with s p =
    if leb (length p) (length s) then text_eq (drop (length s - length p) s) p else false

-- `s.removesuffix(p)`.
unfoldable pub remove_suffix : Text → Text → Text
unfolding ends_with
remove_suffix s p = if ends_with s p then take (length s - length p) s else s

abbrev strip_front : Text → Text
strip_front [] = []
strip_front (c ∷ s) = let rest = strip_front s in if c == b'"' then rest else c ∷ s

-- `s.strip('"')`.
unfoldable pub strip_quotes : Text → Text
strip_quotes s = reverse (strip_front (reverse (strip_front s)))

-- `f'"{s}"'`.
abbrev pub quoted : Text → Text
quoted s = b'"' ∷ s ++ b'"' ∷ []

-- What is left without `old`; `skip` counts the characters of an occurrence still to pass over.
unfoldable pub remove_from : Text → ℕ → Text → Text
unfolding starts_with
remove_from old skip [] = []
remove_from old (suc skip) (c ∷ s) = remove_from old skip s
remove_from old zero (c ∷ s) = elim (starts_with (c ∷ s) old) [
  | true ↦ remove_from old (length old - 1) s
  | false ↦ c ∷ remove_from old zero s
]

-- `s.replace(old, "")`, for an `old` that is not empty.
unfoldable pub replace_away : Text → Text → Text
unfolding remove_from
replace_away s old = remove_from old zero s
