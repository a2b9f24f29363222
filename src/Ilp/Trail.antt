-- ===== src/Ilp/Trail.antt =====
-- A finite set of edges in which every node but some passes on what it takes in leads on from the
-- one node that starts a flow until a node where a flow may end.
use mathlib.Core.Path.{subst}
use rapidstream_noc.Common.{
  ℕ, sym, ap, zero, suc, ◌+◌, ◌<◌, ◌≤◌, ◌≡◌, refl, ◌⊎◌, inl, inr, Bool, true, false, List, [], ◌∷◌,
  length, All, arith, Bool-cases, if◌then◌else◌,
}
use rapidstream_noc.Common.Text.{Text, text_eq}
use rapidstream_noc.Common.Text.Equality.{text_eq_iff, text_eq_refl}
use rapidstream_noc.Graph.{EdgeTuple}

abbrev pub one_if : Bool → ℕ
one_if b = if b then 1 else 0

abbrev pub outdegree : List EdgeTuple → Text → ℕ
outdegree [] w = 0
outdegree ((u, v) ∷ es) w = one_if (text_eq w u) + outdegree es w

abbrev pub indegree : List EdgeTuple → Text → ℕ
indegree [] w = 0
indegree ((u, v) ∷ es) w = one_if (text_eq w v) + indegree es w

-- A walk along edges that satisfy `R`.
pub data Walk (R : EdgeTuple → Type 0) (goal : Text) : Text → Type 0 where
  here : Walk R goal goal
  step : {u : Text} (v : Text) → R (u, v) → Walk R goal v → Walk R goal u

-- Taking one edge out of `u` away from the set.
record Taken (R : EdgeTuple → Type 0) (es : List EdgeTuple) (u : Text) : Type 0 where
  next : Text
  edge : R (u, next)
  rest : List EdgeTuple
  fewer : length es ≡ suc (length rest)
  rest_satisfies : All R rest
  out : (w : Text) → outdegree es w ≡ one_if (text_eq w u) + outdegree rest w
  into : (w : Text) → indegree es w ≡ one_if (text_eq w next) + indegree rest w

take_edge :
    (R : EdgeTuple → Type 0) (es : List EdgeTuple) (u : Text)
    → All R es
    → 0 < outdegree es u
    → Taken R es u
take_edge R [] u hs h = elim h [ ]
take_edge R ((s, v) ∷ es) u (h, hs) some_out = elim (Bool-cases (text_eq u s)) [
  | inl e ↦ record {
    next = v;
    edge = subst (λ k. R (k, v)) (sym ((text_eq_iff u s).0 e)) h;
    rest = es;
    fewer = refl;
    rest_satisfies = hs;
    out = λ w. ap (λ k. one_if (text_eq w k) + outdegree es w) (sym ((text_eq_iff u s).0 e));
    into = λ w. refl;
  }
  | inr n ↦
      let t = take_edge R es u hs (ground arith) in
      record {
        next = t.next;
        edge = t.edge;
        rest = (s, v) ∷ t.rest;
        fewer = omega (arith, t.fewer);
        rest_satisfies = (h, t.rest_satisfies);
        out = λ w. omega (arith, t.out w);
        into = λ w. omega (arith, t.into w);
      }
]

-- Every node that is no stop sends on what it takes in, and `u` one edge more.
abbrev pub IsBalanced : (Text → Bool) → List EdgeTuple → Text → Type 0
IsBalanced stop es u =
    (w : Text) → stop w ≡ false → outdegree es w ≡ indegree es w + one_if (text_eq w u)

starts :
    (stop : Text → Bool) (es : List EdgeTuple) (u : Text)
    → IsBalanced stop es u
    → stop u ≡ false
    → 0 < outdegree es u
starts stop es u balanced going = ground (arith, balanced u, text_eq_refl u)

-- A node that the shorter set leads to has an edge into it in the whole set.
arrival :
    (es rest : List EdgeTuple) (next goal : Text)
    → indegree es goal ≡ one_if (text_eq goal next) + indegree rest goal
    → (goal ≡ next) ⊎ (0 < indegree rest goal)
    → 0 < indegree es goal
arrival es rest next goal into (inl e) =
    subst (λ k. 0 < k) (sym into)
      (subst (λ k. 0 < one_if (text_eq goal k) + indegree rest goal) e
        (subst (λ b. 0 < one_if b + indegree rest goal) (sym (text_eq_refl goal)) (omega arith)))
arrival es rest next goal into (inr more) = omega (arith, into, more)

pub trail :
    (R : EdgeTuple → Type 0) (stop : Text → Bool) (fuel : ℕ) (es : List EdgeTuple) (u : Text)
    → length es ≤ fuel
    → All R es
    → IsBalanced stop es u
    → (goal : Text) × (stop goal ≡ true) × Walk R goal u × ((goal ≡ u) ⊎ (0 < indegree es goal))
trail R stop zero es u bound hs balanced = elim (Bool-cases (stop u)) [
  | inl stopped ↦ (u, stopped, here, inl refl)
  | inr going ↦
      let t = take_edge R es u hs (starts stop es u balanced going) in
      absurd (omega (arith, t.fewer))
]
trail R stop (suc fuel) es u bound hs balanced = elim (Bool-cases (stop u)) [
  | inl stopped ↦ (u, stopped, here, inl refl)
  | inr going ↦
      let t = take_edge R es u hs (starts stop es u balanced going) in
      let (goal, stopped, walk, arrives) =
        trail R stop fuel t.rest t.next (omega (arith, t.fewer)) t.rest_satisfies
          (λ w h. omega (arith, balanced w h, t.out w, t.into w)) in
      (
        goal,
        stopped,
        step t.next t.edge walk,
        inr (arrival es t.rest t.next goal (t.into goal) arrives),
      )
]
