-- ===== src/Graph/Edges.antt =====
-- `add_edges`: what it adds, and what it refuses.
use mathlib.Core.List.{append_assoc, append-nil}
use rapidstream_noc.Common.{
  ◌≡◌, ◌≢◌, sym, ap, ◌∙◌, inl, inr, List, [], ◌∷◌, ◌++◌, All, length, arith, Bool-cases, ok, err,
  assertion_error,
}
use rapidstream_noc.Common.Text.{text_eq}
use rapidstream_noc.Common.Text.Equality.{text_eq_iff, text_eq_ne}
use rapidstream_noc.Graph.{Edge, NocGraph, init, add_edge, add_edges}

abbrev pub IsProper : Edge → Type 0
IsProper e = e.src.name ≢ e.dest.name

pub init_ok : (g : NocGraph) → length g.rows_per_slr ≡ g.num_slr → init g ≡ ok g
unfolding init
init_ok g h = ground arith

-- Edges between different nodes are all added, in order, and nothing else of the graph changes.
pub add_edges_proper :
    (g : NocGraph) (es : List Edge)
    → All IsProper es
    → add_edges g es ≡ ok (record g { edges = g.edges ++ es })
unfolding add_edges
add_edges_proper g [] _ = ap (λ l. ok (record g { edges = l })) (sym (append-nil g.edges))
add_edges_proper g (e ∷ es) (h, hs) = rw (text_eq_ne e.src.name e.dest.name h) (
    add_edges_proper (add_edge g e) es hs
    ∙ ap (λ l. ok (record g { edges = l })) (append_assoc g.edges (e ∷ []) es))

-- A self loop anywhere in the list stops `add_edges` by its assertion.
pub add_edges_self_loop :
    (g : NocGraph) (before : List Edge) (e : Edge) (after : List Edge)
    → e.src.name ≡ e.dest.name
    → add_edges g (before ++ e ∷ after) ≡ err assertion_error
unfolding add_edges
add_edges_self_loop g [] e after h = rw ((text_eq_iff e.src.name e.dest.name).1 h)
add_edges_self_loop g (b ∷ before) e after h = elim (Bool-cases (text_eq b.src.name b.dest.name)) [
  | inl same ↦ rw same
  | inr other ↦ rw other (add_edges_self_loop (add_edge g b) before e after h)
]
