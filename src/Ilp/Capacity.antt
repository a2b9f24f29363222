-- ===== src/Ilp/Capacity.antt =====
-- noc_pass.py: the bandwidth constraints (ilp_noc_selector_add_bw_constr).
-- A constraint is multiplied by 16, so that its coefficients are natural numbers.
pub mod Tests
use mathlib.Core.Path.{subst}
use native.Mathlib.Nat.{mul-le-mul_right, mul_assoc}
use mathlib.Core.List.Memᴰ
use mathlib.Core.List.{Memᴰ}
use rapidstream_noc.Common.{
  ℕ, ◌+◌, ◌*◌, ◌/◌, ◌≤◌, ◌≡◌, refl, sym, ap, ◌∙◌, inl, inr, List, [], ◌∷◌, ◌++◌, All, arith, Result,
  ok, err, key_error, Option, none, some, lookup, ok_inj, ◌>>=◌, >>=-eq-ok, All_at, map_each,
}
use rapidstream_noc.Common.Text.{Text}
use rapidstream_noc.Graph.{Edge, EdgeTuple}
use rapidstream_noc.Device.{Device, Ends}
use rapidstream_noc.Device.Slots.{map_each-cons}
use rapidstream_noc.Width.{round_up_to_noc_bw}
use rapidstream_noc.Width.Bounds.{round_up_to_noc_bw_lem, tdata_bytes, whole_bytes-le}
use rapidstream_noc.Ilp.{Var, x, MmapNoc, at_most, Constr, Solution, Satisfies, total}
use rapidstream_noc.Ilp.Lookups.{IlpVar, x_of, x_ret_of}

-- The bandwidth targets of streams, and of memory-mapped ports, by name.
abbrev pub StreamsBw : Type 0
StreamsBw = List (Text × ℕ)

pub record PortBw : Type 0 where
  pub read_bw : ℕ
  pub write_bw : ℕ

abbrev pub MmapBw : Type 0
MmapBw = List (Text × PortBw)

-- `(e.src.name, e.dest.name)`.
abbrev pub e_tuple : Edge → EdgeTuple
e_tuple e = (e.src.name, e.dest.name)

abbrev pub stream_term : IlpVar → EdgeTuple → Text × ℕ → Result (ℕ × Var)
stream_term ilp_var t (s, bw) = do
  rounded ← round_up_to_noc_bw bw
  var ← x_of ilp_var s t
  ok (16 * rounded, var)

-- The two terms of each port.
unfoldable pub port_terms : IlpVar → EdgeTuple → MmapBw → Result (List (ℕ × Var))
unfolding x_of x_ret_of
port_terms ilp_var t [] = ok []
port_terms ilp_var t ((port, attr) ∷ ports) = do
  var ← x_of ilp_var port t
  var_ret ← x_ret_of ilp_var port t
  rest ← port_terms ilp_var t ports
  ok (
      (attr.read_bw + attr.write_bw * 17, var)
      ∷ (attr.read_bw * 16 + attr.write_bw, var_ret)
      ∷ rest)

abbrev pub bw_constr : IlpVar → StreamsBw → MmapBw → Edge → Result Constr
bw_constr ilp_var streams_bw mmap_bw e =
    map_each streams_bw (stream_term ilp_var (e_tuple e)) >>= λ terms.
    port_terms ilp_var (e_tuple e) mmap_bw >>= λ ports. ok (record {
      plus = terms ++ ports;
      minus = [];
      sense = at_most;
      bound = 16 * e.bandwidth;
      less = 0;
    })

unfoldable pub ilp_noc_selector_add_bw_constr :
    IlpVar → StreamsBw → MmapBw → Device → Result (List Constr)
unfolding x_of port_terms
ilp_noc_selector_add_bw_constr ilp_var streams_bw mmap_bw d =
    map_each d.noc_graph.edges (bw_constr ilp_var streams_bw mmap_bw)

-- The bandwidth that the streams routed over an edge ask for.
abbrev pub carried : Solution → EdgeTuple → StreamsBw → ℕ
carried a t [] = 0
carried a t ((s, bw) ∷ streams) = bw * a (x s t) + carried a t streams

-- A bandwidth of a whole number of bytes, at most the largest that the NoC supports, per cycle.
abbrev pub IsWhole : ℕ → Type 0
IsWhole bw = (bytes : ℕ) × (bytes ≤ 64) × (bw ≡ bytes * 1000)

-- A bandwidth of whole bytes is rounded to no less.
rounds_up : (bw rounded : ℕ) → IsWhole bw → round_up_to_noc_bw bw ≡ ok rounded → bw ≤ rounded
rounds_up bw rounded (bytes, small, is_bytes) e =
    let same =
      sym e
      ∙ ap round_up_to_noc_bw (is_bytes ∙ omega arith)
      ∙ round_up_to_noc_bw_lem (bytes * 8) (omega arith) in
    let back : bytes * 8 / 8 * 8 ≡ bytes * 8 = omega arith in
    let size = ap tdata_bytes back in
    omega (arith, ok_inj same, size, whole_bytes-le bytes small, is_bytes)

-- A bandwidth is whole, and its stream has not the name of a port.
abbrev pub IsStreamBw : MmapNoc → Text × ℕ → Type 0
IsStreamBw mmap_noc (s, bw) = IsWhole bw × (lookup s mmap_noc ≡ none)

x_of-stream :
    (ilp_var : IlpVar) (s : Text) (t : EdgeTuple) (var : Var)
    → lookup s ilp_var.ports ≡ none
    → x_of ilp_var s t ≡ ok var
    → x s t ≡ var
unfolding x_of
x_of-stream ilp_var s t var no_port e =
    by_entry (lookup s ilp_var.streams) (rw (no_port, x_of) at e)
  where
    by_entry :
        (entry : Option (Ends (List Text)))
        → (elim entry [ some _ ↦ ok (x s t) | none ↦ err key_error ]) ≡ ok var
        → x s t ≡ var
    by_entry none e = cc
    by_entry (some ends) e = ok_inj e

carried-terms :
    (a : Solution) (ilp_var : IlpVar) (t : EdgeTuple) (streams_bw : StreamsBw)
    (terms : List (ℕ × Var))
    → map_each streams_bw (stream_term ilp_var t) ≡ ok terms
    → All (IsStreamBw ilp_var.ports) streams_bw
    → 16 * carried a t streams_bw ≤ total a terms
unfolding map_each
carried-terms a ilp_var t [] terms e _ = omega arith
carried-terms a ilp_var t ((s, bw) ∷ streams) terms e ((whole, no_port), wholes) =
    let (term, rest, e1, e2, eq) = map_each-cons (s, bw) streams (stream_term ilp_var t) terms e in
    let (rounded, up, more) = >>=-eq-ok (round_up_to_noc_bw bw) _ e1 in
    let (var, found, made) = >>=-eq-ok (x_of ilp_var s t) _ more in
    let is_x = ap (λ v. (16 * rounded, v)) (x_of-stream ilp_var s t var no_port found) in
    let later = carried-terms a ilp_var t streams rest e2 wholes in
    let less = mul-le-mul_right (a (x s t)) (rounds_up bw rounded whole up) in
    subst (λ l. 16 * carried a t ((s, bw) ∷ streams) ≤ total a l) (sym eq)
      (subst (λ k. 16 * carried a t ((s, bw) ∷ streams) ≤ total a (k ∷ rest)) (is_x ∙ ok_inj made)
        (omega (arith, less, later, mul_assoc 16 rounded (a (x s t)))))

total-append :
    (a : Solution) (first second : List (ℕ × Var))
    → total a (first ++ second) ≡ total a first + total a second
total-append a [] second = omega arith
total-append a (term ∷ first) second = omega (arith, total-append a first second)

map_each-at {ℓ κ} :
    {A : Type ℓ} {B : Type κ} (xs : List A) (body : A → Result B) (ys : List B) (e : A)
    → map_each xs body ≡ ok ys
    → Memᴰ e xs
    → (y : B) × (body e ≡ ok y) × Memᴰ y ys
map_each-at [] body ys e made m = absurd (Memᴰ.not-nil m)
map_each-at (h ∷ xs) body ys e made m =
    let (y, zs, e1, e2, eq) = map_each-cons h xs body ys made in
    elim (Memᴰ.cases_cons m) [
      | inl same ↦ (y, ap body same ∙ e1, subst (Memᴰ y) (sym eq) (Memᴰ.head refl))
      | inr later ↦
          let (z, of_e, listed) = map_each-at xs body zs e e2 later in
          (z, of_e, subst (Memᴰ z) (sym eq) (Memᴰ.tail listed))
    ]

-- When `ilp_noc_selector_add_bw_constr` returns for streams of whole bytes per cycle, at most 64, and of
-- other names than the ports,
-- values that satisfy its constraints route over an edge of the NoC no more bandwidth than the edge
-- has.
pub edge_capacity :
    (ilp_var : IlpVar) (streams_bw : StreamsBw) (mmap_bw : MmapBw) (d : Device) (cs : List Constr)
    (a : Solution) (e : Edge)
    → ilp_noc_selector_add_bw_constr ilp_var streams_bw mmap_bw d ≡ ok cs
    → All (Satisfies a) cs
    → All (IsStreamBw ilp_var.ports) streams_bw
    → Memᴰ e d.noc_graph.edges
    → carried a (e_tuple e) streams_bw ≤ e.bandwidth
unfolding ilp_noc_selector_add_bw_constr
edge_capacity ilp_var streams_bw mmap_bw d cs a e made solves wholes listed =
    let (c, of_e, in_cs) =
      map_each-at d.noc_graph.edges (bw_constr ilp_var streams_bw mmap_bw) cs e made listed in
    let (terms, summed, more) =
      >>=-eq-ok (map_each streams_bw (stream_term ilp_var (e_tuple e))) _ of_e in
    let (ports, _, is_c) = >>=-eq-ok (port_terms ilp_var (e_tuple e) mmap_bw) _ more in
    let bounded =
      subst (Satisfies a) (sym (ok_inj is_c)) (All_at (Satisfies a) c cs solves in_cs) in
    omega (
      arith,
      bounded,
      carried-terms a ilp_var (e_tuple e) streams_bw terms summed wholes,
      total-append a terms ports,
    )
