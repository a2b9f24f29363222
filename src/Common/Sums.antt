-- ===== src/Common/Sums.antt =====
-- Sums of the first entries of a list, which place the rows of one SLR among all rows.
use Prim.Native.Nat.{ℕ, zero, suc, ◌+◌, ◌<◌, ◌≤◌}
use mathlib.Core.Path.{◌≡◌}
use mathlib.Core.List.{List, [], ◌∷◌}
use native.Mathlib.Omega.{arith}
use rapidstream_noc.Common.Lists.{length, sum, take, All}
use rapidstream_noc.Common.Errors.{ok}
use rapidstream_noc.Common.Loops.{get_item}

pub sum-take-suc :
    (ns : List ℕ) (i n : ℕ) → get_item ns i ≡ ok n → sum (take (suc i) ns) ≡ sum (take i ns) + n
sum-take-suc [] i n h = cc
sum-take-suc (m ∷ ns) zero n h = ground arith
sum-take-suc (m ∷ ns) (suc i) n h = omega (arith, sum-take-suc ns i n h)

pub sum-take-le : (ns : List ℕ) (i : ℕ) → sum (take i ns) ≤ sum ns
sum-take-le [] zero = omega arith
sum-take-le [] (suc i) = omega arith
sum-take-le (n ∷ ns) zero = omega arith
sum-take-le (n ∷ ns) (suc i) = omega (arith, sum-take-le ns i)

pub sum-take-lt :
    (ns : List ℕ) (i : ℕ) → All (λ n. 0 < n) ns → i < length ns → sum (take i ns) < sum ns
sum-take-lt [] i h k = elim k [ ]
sum-take-lt (n ∷ ns) zero (h, hs) k = omega arith
sum-take-lt (n ∷ ns) (suc i) (h, hs) k = omega (arith, sum-take-lt ns i hs (omega arith))

pub sum-take_mono : (ns : List ℕ) (i j : ℕ) → i ≤ j → sum (take i ns) ≤ sum (take j ns)
sum-take_mono [] zero j h = omega arith
sum-take_mono [] (suc i) j h = omega arith
sum-take_mono (n ∷ ns) zero j h = omega arith
sum-take_mono (n ∷ ns) (suc i) zero h = elim h [ ]
sum-take_mono (n ∷ ns) (suc i) (suc j) h = omega (arith, sum-take_mono ns i j (omega arith))
