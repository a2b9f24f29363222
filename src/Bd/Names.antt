-- ===== src/Bd/Names.antt =====
-- The names of the interfaces and of the HBM ports are the names of their numbers.
use rapidstream_noc.Common.{
  ℕ, ◌+◌, ◌*◌, ◌/◌, ◌%◌, ◌≡◌, ◌≢◌, sym, ap, ◌∙◌, [], ◌∷◌, ◌++◌, length, ltb, Bool-cases, inl, inr,
  arith, ok, ok_inj,
}
use mathlib.Core.List.{append_cancel_left, append_cancel_right}
use rapidstream_noc.Common.Text.{Text, codes, str_of, int_acc, int_of, split}
use rapidstream_noc.Common.Text.Decimal.{int_of-str_of, int_of-int_acc, str_of-ne-nil, str_of_inj}
use rapidstream_noc.Common.Text.Split.{Clear-of_head, split_at, split_whole}
use rapidstream_noc.Slots.RoundTrip.{str_of-ne}
use rapidstream_noc.Tcl.{zfill2}
use rapidstream_noc.Bd.{interface}
use rapidstream_noc.Bd.Hbm.{hbm_port}
use rapidstream_noc.Bd.ArmHbm.{arm_hbm_port}

-- `int` reads back a number that is filled up to two digits.
int_of-zfill2 : (n : ℕ) → int_of (zfill2 n) ≡ ok n
unfolding int_of int_acc
int_of-zfill2 n = elim (Bool-cases (ltb (length (str_of n)) 2)) [
  | inl h ↦ rw h (sym (int_of-int_acc (str_of n) (str_of-ne-nil n)) ∙ int_of-str_of n)
  | inr h ↦ rw h (int_of-str_of n)
]

pub interface_inj :
    (prefix suffix : Text) (m n : ℕ) → interface prefix m suffix ≡ interface prefix n suffix → m ≡ n
interface_inj prefix suffix m n h =
    let numbers =
      append_cancel_right (zfill2 m) (zfill2 n) suffix
        (append_cancel_left prefix (zfill2 m ++ suffix) (zfill2 n ++ suffix) h) in
    ok_inj (sym (int_of-zfill2 m) ∙ ap int_of numbers ∙ int_of-zfill2 n)

split_port :
    (a c : ℕ)
    → split (str_of a ++ (codes "_PORT" ++ str_of c)) (codes "_PORT") ≡ str_of a ∷ str_of c ∷ []
split_port a c =
    split_at b'_' (codes "PORT") (str_of a) (str_of c)
      (Clear-of_head b'_' (codes "PORT") (str_of a) _ (str_of-ne b'_' a (omega arith)))
    ∙ ap (λ parts. str_of a ∷ parts)
        (split_whole (codes "_PORT") (str_of c)
          (Clear-of_head b'_' (codes "PORT") (str_of c) [] (str_of-ne b'_' c (omega arith))))

-- The name of an HBM port, from the numbers of its controller and of its port.
abbrev port_name : ℕ → ℕ → Text
port_name a c = codes "HBM" ++ (str_of a ++ (codes "_PORT" ++ str_of c))

pub port_name_inj : (a b c d : ℕ) → port_name a c ≡ port_name b d → (a ≡ b) × (c ≡ d)
port_name_inj a b c d h =
    let same =
      append_cancel_left (codes "HBM") (str_of a ++ (codes "_PORT" ++ str_of c))
        (str_of b ++ (codes "_PORT" ++ str_of d)) h in
    let parts = sym (split_port a c) ∙ ap (λ t. split t (codes "_PORT")) same ∙ split_port b d in
    (str_of_inj a b (cc parts), str_of_inj c d (cc parts))

-- A bank's HBM port for an even number of its ports before is none of those that ARM uses.
pub hbm_port-arm : (bank cnt b : ℕ) → cnt % 2 ≡ 1 → hbm_port bank cnt ≢ arm_hbm_port b
hbm_port-arm bank cnt b odd same =
    let (halves, ports) =
      port_name_inj (bank / 2) (b / 2) (bank % 2 * 2 + cnt % 2) (b % 2 * 2) same in
    omega (arith, ports, odd)

-- HBM ports of the same name are on one bank, with numbers of the same parity.
pub hbm_port_inj :
    (bank b cnt n : ℕ) → hbm_port bank cnt ≡ hbm_port b n → (bank ≡ b) × (cnt % 2 ≡ n % 2)
hbm_port_inj bank b cnt n same =
    let (halves, ports) =
      port_name_inj (bank / 2) (b / 2) (bank % 2 * 2 + cnt % 2) (b % 2 * 2 + n % 2) same in
    (omega (arith, halves, ports), omega (arith, halves, ports))
