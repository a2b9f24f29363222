-- ===== src/Common/Text/Split.antt =====
-- Splitting a text at a separator whose first occurrence is known.
use Prim.Native.Nat.{ℕ, suc, ◌-◌}
use mathlib.Core.Path.{◌≡◌, refl, sym, ap, ◌∙◌}
use mathlib.Core.Logic.{◌≢◌}
use mathlib.Core.Bool.{true, false}
use mathlib.Core.List.{[], ◌∷◌, ◌++◌, append_assoc, append-nil}
use native.Mathlib.Omega.{arith}
use rapidstream_noc.Common.Lists.{length, All}
use rapidstream_noc.Common.Text.{Text, starts_with, split_from, split}

-- No occurrence of `sep` starts inside `s` when `rest` follows it.
abbrev pub Clear : Text → Text → Text → Type 0
Clear sep [] rest = Unit
Clear sep (c ∷ s) rest = (starts_with (c ∷ s ++ rest) sep ≡ false) × Clear sep s rest

pub Clear-of_head : (c : ℕ) (k s rest : Text) → All (λ d. d ≢ c) s → Clear (c ∷ k) s rest
unfolding starts_with
Clear-of_head c k [] rest h = tt
Clear-of_head c k (d ∷ s) rest (h, hs) = (ground arith, Clear-of_head c k s rest hs)

pub starts_with-append : (k s : Text) → starts_with (k ++ s) k ≡ true
unfolding starts_with
starts_with-append [] [] = refl
starts_with-append [] (c ∷ s) = refl
starts_with-append (c ∷ k) s = ground (arith, starts_with-append k s)

split_from-Clear :
    (sep s part rest : Text)
    → Clear sep s rest
    → split_from sep 0 part (s ++ rest) ≡ split_from sep 0 (part ++ s) rest
unfolding split_from
split_from-Clear sep [] part rest _ = rw append-nil
split_from-Clear sep (c ∷ s) part rest (h, hs) =
    rw (h, split_from) (split_from-Clear sep s (part ++ c ∷ []) rest hs ∙ rw append_assoc)

split_from_skip : (sep k s : Text) → split_from sep (length k) [] (k ++ s) ≡ split_from sep 0 [] s
unfolding split_from
split_from_skip sep [] s = refl
split_from_skip sep (c ∷ k) s = split_from_skip sep k s

split_from_sep :
    (c : ℕ) (k s rest : Text)
    → split_from (c ∷ k) 0 s (c ∷ k ++ rest) ≡ s ∷ split_from (c ∷ k) 0 [] rest
unfolding split_from
split_from_sep c k s rest =
    rw (starts_with-append (c ∷ k) rest, split_from)
      (ap (λ n. s ∷ split_from (c ∷ k) n [] (k ++ rest)) one_less
        ∙ ap (λ parts. s ∷ parts) (split_from_skip (c ∷ k) k rest))
  where
    one_less : suc (length k) - 1 ≡ length k
    one_less = omega arith

-- A text that goes on, up to its first separator, with `s`.
pub split_at :
    (c : ℕ) (k s rest : Text)
    → Clear (c ∷ k) s (c ∷ k ++ rest)
    → split (s ++ (c ∷ k ++ rest)) (c ∷ k) ≡ s ∷ split rest (c ∷ k)
unfolding split
split_at c k s rest h = split_from-Clear (c ∷ k) s [] (c ∷ k ++ rest) h ∙ split_from_sep c k s rest

pub split_whole : (sep s : Text) → Clear sep s [] → split s sep ≡ s ∷ []
unfolding split split_from
split_whole sep s h = ap (split_from sep 0 []) (sym (append-nil s)) ∙ split_from-Clear sep s [] [] h
