-- ===== src/Common/Text/Suffix.antt =====
-- `endswith` and `removesuffix` tell whether a text is another one with a suffix.
use mathlib.Core.Path.{subst}
use Prim.Native.Nat.{ℕ, zero, suc, ◌-◌}
use mathlib.Core.Path.{◌≡◌, refl, sym, ap, ◌∙◌}
use mathlib.Core.Logic.{◌≢◌, inl, inr}
use mathlib.Core.Bool.{Bool, true, false}
use mathlib.Core.List.{[], ◌∷◌, ◌++◌}
use native.Mathlib.Omega.{arith}
use rapidstream_noc.Common.Tests.{leb, Bool-cases}
use rapidstream_noc.Common.Lists.{length, take, length-append}
use rapidstream_noc.Common.Text.{Text, text_eq}
use rapidstream_noc.Common.Text.Equality.{text_eq_iff, text_eq_refl, text_eq_ne}
use rapidstream_noc.Common.Text.Edit.{drop, ends_with, remove_suffix}

take-++-drop : (n : ℕ) (s : Text) → take n s ++ drop n s ≡ s
take-++-drop zero s = refl
take-++-drop (suc n) [] = refl
take-++-drop (suc n) (c ∷ s) = ap (λ t. c ∷ t) (take-++-drop n s)

drop-append : (name suffix : Text) → drop (length name) (name ++ suffix) ≡ suffix
drop-append [] suffix = refl
drop-append (c ∷ name) suffix = drop-append name suffix

take-append : (name suffix : Text) → take (length name) (name ++ suffix) ≡ name
take-append [] suffix = refl
take-append (c ∷ name) suffix = ap (λ t. c ∷ t) (take-append name suffix)

rest_of : (name suffix : Text) → length (name ++ suffix) - length suffix ≡ length name
rest_of name suffix = omega (arith, length-append name suffix)

ends_with-append : (name suffix : Text) → ends_with (name ++ suffix) suffix ≡ true
unfolding ends_with
ends_with-append name suffix =
    let fits : leb (length suffix) (length (name ++ suffix)) ≡ true =
      ground (arith, length-append name suffix) in
    rw (fits, rest_of name suffix, drop-append name suffix) (text_eq_refl suffix)

remove_suffix-append : (name suffix : Text) → remove_suffix (name ++ suffix) suffix ≡ name
unfolding remove_suffix
remove_suffix-append name suffix =
    rw (ends_with-append name suffix, rest_of name suffix) (take-append name suffix)

-- What stands at the end of a text that ends with a suffix.
ends_with-drop :
    (s suffix : Text) → ends_with s suffix ≡ true → drop (length s - length suffix) s ≡ suffix
unfolding ends_with
ends_with-drop s suffix e = elim (Bool-cases (leb (length suffix) (length s))) [
  | inl fits ↦ (text_eq_iff (drop (length s - length suffix) s) suffix).0 (rw fits at e)
  | inr short ↦ absurd (cc (e, short))
]

remove_suffix-++ :
    (s suffix : Text) → ends_with s suffix ≡ true → remove_suffix s suffix ++ suffix ≡ s
unfolding remove_suffix
remove_suffix-++ s suffix e = rw e (
    ap (λ t. take (length s - length suffix) s ++ t) (sym (ends_with-drop s suffix e))
    ∙ take-++-drop (length s - length suffix) s)

same_test : (b c : Bool) → (b ≡ true → c ≡ true) → (c ≡ true → b ≡ true) → b ≡ c
same_test true c f g = sym (f refl)
same_test false true f g = g refl
same_test false false f g = refl

-- A text with the suffix has a name without it exactly if it is that name with the suffix.
pub text_eq-remove_suffix :
    (s suffix name : Text)
    → ends_with s suffix ≡ true
    → text_eq name (remove_suffix s suffix) ≡ text_eq s (name ++ suffix)
text_eq-remove_suffix s suffix name e =
    same_test _ _
      (λ h. (text_eq_iff s (name ++ suffix)).1 (
        sym (remove_suffix-++ s suffix e)
        ∙ ap (λ t. t ++ suffix) (sym ((text_eq_iff name (remove_suffix s suffix)).0 h))))
      (λ h. (text_eq_iff name (remove_suffix s suffix)).1 (
        sym (remove_suffix-append name suffix)
        ∙ ap (λ t. remove_suffix t suffix) (sym ((text_eq_iff s (name ++ suffix)).0 h))))

pub no_suffix :
    (s suffix name : Text) → ends_with s suffix ≡ false → text_eq s (name ++ suffix) ≡ false
no_suffix s suffix name e = text_eq_ne s (name ++ suffix) (λ h.
    absurd (cc (e, subst (λ t. ends_with t suffix ≡ true) (sym h) (ends_with-append name suffix))))

-- A text does not end with two suffixes of one length that differ.
pub one_suffix :
    (s suffix other name : Text)
    → length suffix ≡ length other
    → suffix ≢ other
    → ends_with s suffix ≡ true
    → text_eq s (name ++ other) ≡ false
one_suffix s suffix other name same_length differ e = text_eq_ne s (name ++ other) (λ h. differ (
    sym (ends_with-drop s suffix e)
    ∙ ap (λ k. drop (length s - k) s) same_length
    ∙ ends_with-drop s other
        (subst (λ t. ends_with t other ≡ true) (sym h) (ends_with-append name other))))
