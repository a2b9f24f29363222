-- ===== src/Common/Text/Decimal.antt =====
-- `int` reads back what `str` prints of a number; so decimal numerals determine their numbers.
use Prim.Native.Nat.{ℕ, zero, suc, ◌+◌, ◌-◌, ◌*◌, ◌/◌, ◌%◌, ◌≤◌, ◌<◌}
use mathlib.Core.Path.{◌≡◌, refl, sym, ap, ◌∙◌}
use mathlib.Core.Logic.{◌≢◌, inl, inr}
use mathlib.Core.List.{[], ◌∷◌, ◌++◌, append_assoc, append-nil, concat-ne-nil}
use native.Mathlib.Omega.{arith}
use rapidstream_noc.Common.Tests.{ltb, Bool-cases}
use rapidstream_noc.Common.Lists.{All, All-append}
use rapidstream_noc.Common.Errors.{ok}
use rapidstream_noc.Common.Text.{Text, digits, str_of, int_acc, int_of}

abbrev pub IsDigit : ℕ → Type 0
IsDigit c = (b'0' ≤ c) × (c ≤ b'9')

pub digits-IsDigit : (f n : ℕ) → All IsDigit (digits f n)
unfolding digits
digits-IsDigit zero n = tt
digits-IsDigit (suc f) n = elim (Bool-cases (ltb n 10)) [
  | inl h ↦ rw h (ground arith, tt)
  | inr h ↦ rw h (
      All-append IsDigit (digits f (n / 10)) ((b'0' + n % 10) ∷ []) (digits-IsDigit f (n / 10))
        (ground arith, tt))
]

pub str_of-IsDigit : (n : ℕ) → All IsDigit (str_of n)
unfolding str_of
str_of-IsDigit n = digits-IsDigit (suc n) n

int_acc-digit : (n d : ℕ) (s : Text) → d < 10 → int_acc n ((b'0' + d) ∷ s) ≡ int_acc (n * 10 + d) s
unfolding int_acc
int_acc-digit n d s h = ground (arith, ap (λ k. int_acc (n * 10 + k) s) (digit_value d))
  where
    digit_value : (d : ℕ) → b'0' + d - b'0' ≡ d
    digit_value d = omega arith

int_acc-digits : (f n : ℕ) (s : Text) → n < f → int_acc 0 (digits f n ++ s) ≡ int_acc n s
unfolding digits
int_acc-digits zero n s h = elim h [ ]
int_acc-digits (suc f) n s h = elim (Bool-cases (ltb n 10)) [
  | inl small ↦ rw small (int_acc-digit 0 n s (ground arith) ∙ ap (λ k. int_acc k s) (omega arith))
  | inr large ↦ rw large (
      rw append_assoc (
        int_acc-digits f (n / 10) ((b'0' + n % 10) ∷ s) (ground arith)
        ∙ int_acc-digit (n / 10) (n % 10) s (ground arith)
        ∙ ap (λ k. int_acc k s) (omega arith)))
]

digits-ne-nil : (f n : ℕ) → digits (suc f) n ≢ []
unfolding digits
digits-ne-nil f n = ground (arith, concat-ne-nil (b'0' + n % 10) (digits f (n / 10)))

pub int_of-int_acc : (s : Text) → s ≢ [] → int_of s ≡ int_acc 0 s
unfolding int_of
int_of-int_acc [] h = absurd (h refl)
int_of-int_acc (c ∷ s) h = refl

pub int_of-str_of : (n : ℕ) → int_of (str_of n) ≡ ok n
unfolding str_of int_acc
int_of-str_of n =
    int_of-int_acc (digits (suc n) n) (digits-ne-nil n n)
    ∙ ap (int_acc 0) (sym (append-nil (digits (suc n) n)))
    ∙ int_acc-digits (suc n) n [] (omega arith)

pub str_of-ne-nil : (n : ℕ) → str_of n ≢ []
unfolding str_of
str_of-ne-nil n = digits-ne-nil n n

pub str_of_inj : (m n : ℕ) → str_of m ≡ str_of n → m ≡ n
str_of_inj m n h = cc (int_of-str_of m, int_of-str_of n, ap int_of h)
