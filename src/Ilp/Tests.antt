-- ===== src/Ilp/Tests.antt =====
-- Two streams on a small NoC: `a` through a switch from n1 to s1, and `b` from n2 to s2.
use mathlib.Core.List.Memᴰ
use mathlib.Core.List.{Memᴰ}
use rapidstream_noc.Common.{
  ok, err, networkx_error, if◌then◌else◌, false, ℕ, sym, ◌+◌, ◌≤◌, ◌≡◌, ◌≢◌, refl, inl, inr, Bool,
  true, not, ◌&&◌, ◌||◌, List, [], ◌∷◌, ◌++◌, All, All-map, arith, Bool-cases, ◌==◌, leb, eq_of_==,
  leb→le,
}
use rapidstream_noc.Common.Text.{Text, codes, text_eq}
use rapidstream_noc.Common.Text.Equality.{text_eq_iff, ne_of_clash}
use rapidstream_noc.Graph.{
  Node, NocGraph, EdgeTuple, get_all_edges, get_all_nmu_nodes, get_all_nsu_nodes,
}
use rapidstream_noc.Device.{Device, Ends}
use rapidstream_noc.Ilp.{
  NetworkX, Var, x, y, z, not_mapped_stream, port_x, x_ret, StreamNodes, Constr, Solution, total,
  Sense, equal, at_most, Satisfies, get_nx_graph_from_noc_graph, ilp_noc_selector_add_stream_constr,
  post_process_noc_ilp, keep, num_ports_at,
}
use rapidstream_noc.Ilp.Balance.{heads, tails}
use rapidstream_noc.Ilp.Trail.{one_if}
use rapidstream_noc.Common.Text.Equality.{text_elem, text_elem_iff}
use rapidstream_noc.Ilp.Networkx.{IsDiGraph, added}
use rapidstream_noc.Ilp.Path.{Route, mapped_stream-Route}
use rapidstream_noc.Ilp.Exclusive.{kept, nmu_exclusive, nsu_exclusive}

abbrev distinct : List Text → List Text
distinct [] = []
distinct (n ∷ ns) = n ∷ keep (λ m. not (text_eq n m)) (distinct ns)

abbrev ends_of : List EdgeTuple → List Text
ends_of [] = []
ends_of ((u, v) ∷ es) = u ∷ v ∷ ends_of es

-- A graph that keeps its edges in a list.
abbrev pub listed : NetworkX
listed = record {
  nodes = λ ns es. distinct (ns ++ ends_of es);
  predecessors = λ ns es n.
      if text_elem n (distinct (ns ++ ends_of es))
      then ok (tails n (added es))
      else err networkx_error;
  successors = λ ns es n.
      if text_elem n (distinct (ns ++ ends_of es))
      then ok (heads n (added es))
      else err networkx_error;
}

distinct_keeps : (m : Text) (ns : List Text) → Memᴰ m ns → Memᴰ m (distinct ns)
distinct_keeps m [] here_ = absurd (Memᴰ.not-nil here_)
distinct_keeps m (n ∷ ns) here_ = elim (Bool-cases (text_eq n m)) [
  | inl same ↦ Memᴰ.head (sym ((text_eq_iff n m).0 same))
  | inr other ↦ elim (Memᴰ.cases_cons here_) [
    | inl e ↦ Memᴰ.head e
    | inr later ↦
        Memᴰ.tail (
          kept (λ k. not (text_eq n k)) m (distinct ns) (distinct_keeps m ns later) (rw other refl))
  ]
]

ends_listed : (es : List EdgeTuple) → All (λ (u, v). Memᴰ u (ends_of es) × Memᴰ v (ends_of es)) es
ends_listed [] = tt
ends_listed ((u, v) ∷ es) = (
  (Memᴰ.head refl, Memᴰ.tail (Memᴰ.head refl)),
  All-map (λ (s, t) (hs, ht). (Memᴰ.tail (Memᴰ.tail hs), Memᴰ.tail (Memᴰ.tail ht))) es
      (ends_listed es),
)

not_elem : (n : Text) (ns : List Text) → ¬ Memᴰ n ns → text_elem n ns ≡ false
not_elem n ns absent = elim (Bool-cases (text_elem n ns)) [
  | inl yes_ ↦ absurd (absent ((text_elem_iff n ns).0 yes_))
  | inr no_ ↦ no_
]

pub listed-IsDiGraph : IsDiGraph listed
listed-IsDiGraph = record {
  ends_are_nodes = λ ns es.
      All-map
        (λ (u, v) (hu, hv). (
          distinct_keeps u (ns ++ ends_of es) (Memᴰ.append_right ns hu),
          distinct_keeps v (ns ++ ends_of es) (Memᴰ.append_right ns hv),
        ))
        es (ends_listed es);
  out = λ ns es n m. rw ((text_elem_iff n _).1 m) refl;
  into = λ ns es n m. rw ((text_elem_iff n _).1 m) refl;
  out_refused = λ ns es n absent. rw (not_elem n _ absent) refl;
  into_refused = λ ns es n absent. rw (not_elem n _ absent) refl;
}

abbrev pub node_of : Text → Node
node_of t = record { name = t }

abbrev pub noc : NocGraph
noc = record {
  num_slr = 1;
  num_col = 2;
  rows_per_slr = 1 ∷ [];
  nmu_nodes = (node_of (codes "n1") ∷ []) ∷ (node_of (codes "n2") ∷ []) ∷ [];
  nsu_nodes = (node_of (codes "s1") ∷ []) ∷ (node_of (codes "s2") ∷ []) ∷ [];
  nps_vnoc_nodes = (node_of (codes "m") ∷ []) ∷ [];
  nps_hnoc_nodes = [];
  nps_slr0_nodes = [];
  ncrb_nodes = [];
  nps_hbm_nodes = [];
  ncrb_hbm_nodes = [];
  hbm_mc_nodes = [];
  nmu_hbm_nodes = [];
  nps4_hbm_mc_nodes = [];
  nps6_hbm_mc_nodes = [];
  edges =
      record { src = node_of (codes "n1"); dest = node_of (codes "m"); bandwidth = 64000 }
      ∷ record { src = node_of (codes "m"); dest = node_of (codes "s1"); bandwidth = 64000 }
      ∷ record { src = node_of (codes "n2"); dest = node_of (codes "s2"); bandwidth = 64000 }
      ∷ [];
}

abbrev pub device : Device
device = record {
  part_num = [];
  board_part = [];
  slot_width = 1;
  slot_height = 1;
  cr_mapping = [];
  noc_graph = noc;
  nmu_per_slot = [];
  nsu_per_slot = [];
}

abbrev ends : Ends (List Text)
ends = record { src = codes "n1" ∷ codes "n2" ∷ []; dest = codes "s1" ∷ codes "s2" ∷ [] }

abbrev streams : StreamNodes
streams = (codes "a", ends) ∷ (codes "b", ends) ∷ []

abbrev pub is_pair : Text → Text → Text → Text → Bool
is_pair s n t m = text_eq s t && text_eq n m

abbrev pub solution : Solution
solution (x s (u, v)) = one_if (
    is_pair s u (codes "a") (codes "n1")
    || is_pair s u (codes "a") (codes "m")
    || is_pair s u (codes "b") (codes "n2"))
solution (y s n) =
    one_if (is_pair s n (codes "a") (codes "n1") || is_pair s n (codes "b") (codes "n2"))
solution (z s n) =
    one_if (is_pair s n (codes "a") (codes "s1") || is_pair s n (codes "b") (codes "s2"))
solution (not_mapped_stream s) = 0
solution (port_x s e) = 0
solution (x_ret s e) = 0

pub one_if_le : (b : Bool) → one_if b ≤ 1
one_if_le b = ground arith

solution_binary : (v : Var) → solution v ≤ 1
solution_binary (x s (u, v)) = one_if_le _
solution_binary (y s n) = one_if_le _
solution_binary (z s n) = one_if_le _
solution_binary (not_mapped_stream s) = omega arith
solution_binary (port_x s e) = omega arith
solution_binary (x_ret s e) = omega arith

abbrev holds : Solution → Constr → Bool
holds a c = elim c.sense [
  | equal ↦ total a c.plus + c.less == c.bound + total a c.minus
  | at_most ↦ leb (total a c.plus + c.less) (c.bound + total a c.minus)
]

abbrev pub all_hold : Solution → List Constr → Bool
all_hold a [] = true
all_hold a (c ∷ cs) = holds a c && all_hold a cs

holds-Satisfies :
    (a : Solution) (plus minus : List (ℕ × Var)) (sense : Sense) (bound less : ℕ)
    → holds a (record { plus = plus; minus = minus; sense = sense; bound = bound; less = less })
      ≡ true
    → Satisfies a (record { plus = plus; minus = minus; sense = sense; bound = bound; less = less })
holds-Satisfies a plus minus equal bound less h = eq_of_== _ _ h
holds-Satisfies a plus minus at_most bound less h = leb→le _ _ h

both_true : (b c : Bool) → (b && c) ≡ true → (b ≡ true) × (c ≡ true)
both_true b c h = (ground arith, ground arith)

pub all_hold-Satisfies :
    (a : Solution) (cs : List Constr) → all_hold a cs ≡ true → All (Satisfies a) cs
all_hold-Satisfies a [] h = tt
all_hold-Satisfies a (c ∷ cs) h =
    let (first, rest) = both_true (holds a c) (all_hold a cs) h in
    (holds-Satisfies a c.plus c.minus c.sense c.bound c.less first, all_hold-Satisfies a cs rest)

ilp : Unit {0}
unfolding ilp_noc_selector_add_stream_constr get_nx_graph_from_noc_graph post_process_noc_ilp
    get_all_nmu_nodes get_all_nsu_nodes get_all_edges text_eq
ilp = tt

checked : all_hold solution (ilp_noc_selector_add_stream_constr listed streams [] device) ≡ true
unfolding ilp
checked = refl

solves : All (Satisfies solution) (ilp_noc_selector_add_stream_constr listed streams [] device)
solves =
    all_hold-Satisfies solution (ilp_noc_selector_add_stream_constr listed streams [] device)
      checked

reported :
    post_process_noc_ilp solution streams
    ≡ (codes "a", (codes "n1", codes "s1")) ∷ (codes "b", (codes "n2", codes "s2")) ∷ []
unfolding ilp
reported = refl

abbrev listed_a : Memᴰ (codes "a", ends) streams
listed_a = Memᴰ.head refl

abbrev listed_b : Memᴰ (codes "b", ends) streams
listed_b = Memᴰ.tail (Memᴰ.head refl)

names_ne : (All (λ n. n ≢ []) ends.src) × All (λ n. n ≢ []) ends.dest
names_ne = ((cc, (cc, tt)), (cc, (cc, tt)))

mapped_stream-Route_run : Route (get_all_edges device.noc_graph) solution (codes "a") ends
mapped_stream-Route_run =
    mapped_stream-Route listed listed-IsDiGraph streams [] device solution solution_binary solves
      (codes "a") ends listed_a refl names_ne.0 names_ne.1

n1_is_nmu : Memᴰ (codes "n1") (get_all_nmu_nodes device.noc_graph)
unfolding get_all_nmu_nodes
n1_is_nmu = Memᴰ.head refl

s1_is_nsu : Memᴰ (codes "s1") (get_all_nsu_nodes device.noc_graph)
unfolding get_all_nsu_nodes
s1_is_nsu = Memᴰ.head refl

chosen_ends_one :
    (solution (y (codes "a") (codes "n1")) ≡ 1) × (solution (z (codes "a") (codes "s1")) ≡ 1)
unfolding ilp
chosen_ends_one = (refl, refl)

a_ne_b : codes "a" ≢ codes "b"
a_ne_b = ne_of_clash _ _ refl

nmu_exclusive_example :
    (solution (y (codes "b") (codes "n1")) ≡ 0) × (num_ports_at [] (codes "n1") ≡ 0)
nmu_exclusive_example =
    nmu_exclusive listed streams [] device solution solves (codes "a", ends) (codes "b", ends)
      listed_a listed_b a_ne_b (codes "n1") n1_is_nmu (Memᴰ.head refl) (Memᴰ.head refl)
      chosen_ends_one.0

nsu_exclusive_run : solution (z (codes "b") (codes "s1")) ≡ 0
nsu_exclusive_run =
    nsu_exclusive listed streams [] device solution solves (codes "a", ends) (codes "b", ends)
      listed_a listed_b a_ne_b (codes "s1") s1_is_nsu (Memᴰ.head refl) (Memᴰ.head refl)
      chosen_ends_one.1
