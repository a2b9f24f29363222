-- ===== src/Ilp/Networkx.antt =====
-- networkx as noc_pass.py relies on it: the documented behaviour of `nodes`, `successors` and
-- `predecessors` of a `DiGraph`.
use mathlib.Core.List.{Memᴰ}
use mathlib.Core.Path.{subst}
use rapidstream_noc.Common.Text.Equality.{text_elem, text_elem_iff, text_eq_ne}
use rapidstream_noc.Common.{
  ◌≡◌, refl, inl, inr, Bool, not, ◌&&◌, List, [], ◌∷◌, All, All-map, Bool-cases, false, ok, err,
  networkx_error, sym, ap, ◌∙◌, arith,
}
use rapidstream_noc.Common.Text.{Text, text_eq}
use rapidstream_noc.Graph.{EdgeTuple}
use rapidstream_noc.Ilp.{NetworkX, keep, returned_nodes}
use rapidstream_noc.Ilp.Balance.{heads, tails}

-- The edges of a `DiGraph`, each once, in the order in which they were first added.
abbrev pub added : List EdgeTuple → List EdgeTuple
added [] = []
added ((u, v) ∷ es) = (u, v) ∷ keep (λ (s, t). not (text_eq u s && text_eq v t)) (added es)

-- What networkx documents of `nodes`, `successors` and `predecessors`: the ends of an edge are
-- nodes; the neighbours of a node come once each, in the order in which the edges were added; and
-- asking for the neighbours of what is no node raises a NetworkXError.
pub record IsDiGraph (nx : NetworkX) : Type 0 where
  pub ends_are_nodes :
      (ns : List Text) (es : List EdgeTuple)
      → All (λ (u, v). Memᴰ u (nx.nodes ns es) × Memᴰ v (nx.nodes ns es)) es
  pub out :
      (ns : List Text) (es : List EdgeTuple) (n : Text)
      → Memᴰ n (nx.nodes ns es)
      → nx.successors ns es n ≡ ok (heads n (added es))
  pub into :
      (ns : List Text) (es : List EdgeTuple) (n : Text)
      → Memᴰ n (nx.nodes ns es)
      → nx.predecessors ns es n ≡ ok (tails n (added es))
  pub out_refused :
      (ns : List Text) (es : List EdgeTuple) (n : Text)
      → ¬ Memᴰ n (nx.nodes ns es)
      → nx.successors ns es n ≡ err networkx_error
  pub into_refused :
      (ns : List Text) (es : List EdgeTuple) (n : Text)
      → ¬ Memᴰ n (nx.nodes ns es)
      → nx.predecessors ns es n ≡ err networkx_error

pub keep-All {ℓ κ} :
    {A : Type ℓ} (P : A → Type κ) (test : A → Bool) (xs : List A) → All P xs → All P (keep test xs)
keep-All P test [] _ = tt
keep-All P test (e ∷ es) (p, h) = elim (Bool-cases (test e)) [
  | inl yes_ ↦ rw yes_ (p, keep-All P test es h)
  | inr no_ ↦ rw no_ (keep-All P test es h)
]

pub added-All {κ} : (P : EdgeTuple → Type κ) (es : List EdgeTuple) → All P es → All P (added es)
added-All P [] _ = tt
added-All P ((u, v) ∷ es) (p, h) = (p, keep-All P _ (added es) (added-All P es h))

pub All-Memᴰ {ℓ} : {A : Type ℓ} (xs : List A) → All (λ e. Memᴰ e xs) xs
All-Memᴰ [] = tt
All-Memᴰ (e ∷ es) = (Memᴰ.head refl, All-map (λ d m. Memᴰ.tail m) es (All-Memᴰ es))

heads-absent :
    (n : Text) (ns : List Text) (es : List EdgeTuple)
    → All (λ (u, v). Memᴰ u ns × Memᴰ v ns) es
    → ¬ Memᴰ n ns
    → (heads n es ≡ []) × (tails n es ≡ [])
heads-absent n ns [] _ absent = (refl, refl)
heads-absent n ns ((u, v) ∷ es) ((hu, hv), hs) absent =
    let (no_heads, no_tails) = heads-absent n ns es hs absent in
    (rw (other u hu) no_heads, rw (other v hv) no_tails)
  where
    other : (w : Text) → Memᴰ w ns → text_eq n w ≡ false
    other w m = text_eq_ne n w (λ e. absent (subst (λ t. Memᴰ t ns) (sym e) m))

-- Where a node is asked for, the lists of `get_nx_graph_from_noc_graph` are its neighbours; and what is
-- no node has none.
pub neighbours-added :
    (nx : NetworkX) (lawful : IsDiGraph nx) (ns : List Text) (es : List EdgeTuple) (n : Text)
    → (returned_nodes (nx.successors ns es n) ≡ heads n (added es))
      × (returned_nodes (nx.predecessors ns es n) ≡ tails n (added es))
neighbours-added nx lawful ns es n = elim (Bool-cases (text_elem n (nx.nodes ns es))) [
  | inl yes_ ↦
      let m = (text_elem_iff n (nx.nodes ns es)).0 yes_ in
      (ap returned_nodes (lawful.out ns es n m), ap returned_nodes (lawful.into ns es n m))
  | inr no_ ↦
      let absent : ¬ Memᴰ n (nx.nodes ns es) =
        λ m. absurd (ground (arith, no_, (text_elem_iff n (nx.nodes ns es)).1 m)) in
      let (no_heads, no_tails) =
        heads-absent n (nx.nodes ns es) (added es) (added-All _ es (lawful.ends_are_nodes ns es))
          absent in
      (
        ap returned_nodes (lawful.out_refused ns es n absent) ∙ sym no_heads,
        ap returned_nodes (lawful.into_refused ns es n absent) ∙ sym no_tails,
      )
]
