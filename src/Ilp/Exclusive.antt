-- ===== src/Ilp/Exclusive.antt =====
-- noc_pass.py: what the constraints of `ilp_noc_selector_add_stream_constr` on the nodes at which
-- streams start and end keep apart.
use mathlib.Core.List.Memᴰ
use mathlib.Core.List.{Memᴰ}
use rapidstream_noc.Common.{
  ℕ, sym, ap, ◌∙◌, ◌+◌, ◌≤◌, ◌≡◌, ◌≢◌, inl, inr, Bool, true, List, [], ◌∷◌, All, arith, Bool-cases,
}
use rapidstream_noc.Common.Text.{Text}
use rapidstream_noc.Common.Text.Equality.{text_elem, text_elem_iff}
use rapidstream_noc.Graph.{get_all_nmu_nodes, get_all_nsu_nodes}
use rapidstream_noc.Device.{Device, Ends}
use rapidstream_noc.Ilp.{
  NetworkX, y, z, StreamNodes, MmapNoc, Solution, Satisfies, ilp_noc_selector_add_stream_constr,
  keep, num_ports_at, nmu_constr, nsu_constr,
}
use rapidstream_noc.Ilp.Parts.{parts}
use rapidstream_noc.Ilp.Balance.{All_map_at, sum_of, total_lp}

-- One stream of a list.
abbrev Stream : Type 0
Stream = Text × Ends (List Text)

one_of {ℓ} : {A : Type ℓ} (f : A → ℕ) (p : A) (xs : List A) → Memᴰ p xs → f p ≤ sum_of f xs
one_of f p [] m = absurd (Memᴰ.not-nil m)
one_of f p (e ∷ es) m = elim (Memᴰ.cases_cons m) [
  | inl same ↦ omega (arith, ap f same)
  | inr later ↦ omega (arith, one_of f p es later)
]

two_of {ℓ} :
    {A : Type ℓ} (f : A → ℕ) (p q : A) (xs : List A)
    → Memᴰ p xs
    → Memᴰ q xs
    → p ≢ q
    → f p + f q ≤ sum_of f xs
two_of f p q [] m _ _ = absurd (Memᴰ.not-nil m)
two_of f p q (e ∷ es) m k differ = elim (Memᴰ.cases_cons m) [
  | inl first ↦ elim (Memᴰ.cases_cons k) [
    | inl same ↦ absurd (differ (first ∙ sym same))
    | inr later ↦ omega (arith, ap f first, one_of f q es later)
  ]
  | inr later ↦ elim (Memᴰ.cases_cons k) [
    | inl first ↦ omega (arith, ap f first, one_of f p es later)
    | inr both ↦ omega (arith, two_of f p q es later both differ)
  ]
]

pub kept {ℓ} :
    {A : Type ℓ} (test : A → Bool) (p : A) (xs : List A)
    → Memᴰ p xs
    → test p ≡ true
    → Memᴰ p (keep test xs)
kept test p [] m _ = absurd (Memᴰ.not-nil m)
kept test p (e ∷ es) m yes_ = elim (Bool-cases (test e)) [
  | inl in_ ↦ elim (Memᴰ.cases_cons m) [
    | inl same ↦ rw in_ (Memᴰ.head same)
    | inr later ↦ rw in_ (Memᴰ.tail (kept test p es later yes_))
  ]
  | inr out_ ↦ elim (Memᴰ.cases_cons m) [
    | inl same ↦ absurd (ground (arith, out_, yes_, ap test same))
    | inr later ↦ rw out_ (kept test p es later yes_)
  ]
]

module _ (nx : NetworkX) (streams_nodes : StreamNodes) (mmap_noc : MmapNoc) (d : Device)
    (a : Solution)
    (solves : All (Satisfies a) (ilp_noc_selector_add_stream_constr nx streams_nodes mmap_noc d))
    (p q : Stream) (p_listed : Memᴰ p streams_nodes) (q_listed : Memᴰ q streams_nodes)
    (differ : p.0 ≢ q.0) (n : Text) where
  -- In values that satisfy the constraints of `ilp_noc_selector_add_stream_constr`, an NMU node that
  -- may start two streams and is chosen for one of them is not chosen for the other, and no
  -- memory-mapped port starts at it.
  pub nmu_exclusive :
      Memᴰ n (get_all_nmu_nodes d.noc_graph)
      → Memᴰ n p.1.src
      → Memᴰ n q.1.src
      → a (y p.0 n) ≡ 1
      → (a (y q.0 n) ≡ 0) × (num_ports_at mmap_noc n ≡ 0)
  nmu_exclusive is_nmu in_p in_q chosen =
      let (_, (_, (_, (nmus, nsus)))) = parts nx streams_nodes mmap_noc d (Satisfies a) solves in
      let able = keep (λ (s, ends). text_elem n ends.src) streams_nodes in
      let at_most_one =
        All_map_at (Satisfies a) (nmu_constr streams_nodes mmap_noc) n
          (get_all_nmu_nodes d.noc_graph) nmus is_nmu in
      let both =
        two_of (λ (s, ends). a (y s n)) p q able
          (kept _ p streams_nodes p_listed ((text_elem_iff n p.1.src).1 in_p))
          (kept _ q streams_nodes q_listed ((text_elem_iff n q.1.src).1 in_q))
          (λ e. differ (ap (λ s. s.0) e)) in
      let counted = total_lp a (λ (s, ends). y s n) able in
      (omega (arith, at_most_one, both, counted), omega (arith, at_most_one, both, counted))

  -- In values that satisfy the constraints of `ilp_noc_selector_add_stream_constr`, an NSU node that
  -- may end two streams and is chosen for one of them is not chosen for the other.
  pub nsu_exclusive :
      Memᴰ n (get_all_nsu_nodes d.noc_graph)
      → Memᴰ n p.1.dest
      → Memᴰ n q.1.dest
      → a (z p.0 n) ≡ 1
      → a (z q.0 n) ≡ 0
  nsu_exclusive is_nsu in_p in_q chosen =
      let (_, (_, (_, (nmus, nsus)))) = parts nx streams_nodes mmap_noc d (Satisfies a) solves in
      let able = keep (λ (s, ends). text_elem n ends.dest) streams_nodes in
      let at_most_one =
        All_map_at (Satisfies a) (nsu_constr streams_nodes) n (get_all_nsu_nodes d.noc_graph) nsus
          is_nsu in
      let both =
        two_of (λ (s, ends). a (z s n)) p q able
          (kept _ p streams_nodes p_listed ((text_elem_iff n p.1.dest).1 in_p))
          (kept _ q streams_nodes q_listed ((text_elem_iff n q.1.dest).1 in_q))
          (λ e. differ (ap (λ s. s.0) e)) in
      omega (arith, at_most_one, both, total_lp a (λ (s, ends). z s n) able)
