-- ===== src/Graph/Names.antt =====
-- Node names `{type}_x{x}y{y}`, and tables of nodes that are named by their place.
use mathlib.Core.List.Memᴰ
use mathlib.Core.List.{Memᴰ, map-id}
use mathlib.Core.Path.{subst}
use rapidstream_noc.Common.{
  ℕ, zero, suc, ◌+◌, ◌<◌, ◌≡◌, sym, ap, ◌∙◌, List, [], ◌∷◌, ◌++◌, map, arith, range, range_from, ok,
  get_item, >>=-eq-ok,
}
use rapidstream_noc.Common.Text.{Text, codes, str_of, split}
use rapidstream_noc.Common.Text.Decimal.{str_of_inj}
use rapidstream_noc.Common.Text.Split.{Clear-of_head, split_at, split_whole}
use rapidstream_noc.Slots.RoundTrip.{str_of-ne}
use rapidstream_noc.Graph.{Node, names, at}

-- `f"{node_type}_x{x}y{y}"`.
abbrev pub node_name : Text → ℕ → ℕ → Text
node_name node_type x y = node_type ++ (codes "_x" ++ (str_of x ++ (codes "y" ++ str_of y)))

abbrev pub node : Text → ℕ → ℕ → Node
node node_type x y = record { name = node_name node_type x y }

-- `create_nodes`, which the loops of the VP1802 write out.
abbrev pub create_nodes : Text → ℕ → ℕ → List Node
create_nodes node_type x y_range = map (λ y. node node_type x y) (range y_range)

-- The columns `x` of `range(n)`.
abbrev pub create_columns : Text → ℕ → ℕ → List (List Node)
create_columns node_type n y_range = map (λ x. create_nodes node_type x y_range) (range n)

split_coords :
    (x y : ℕ) → split (str_of x ++ (codes "y" ++ str_of y)) (codes "y") ≡ str_of x ∷ str_of y ∷ []
split_coords x y =
    split_at b'y' [] (str_of x) (str_of y)
      (Clear-of_head b'y' [] (str_of x) _ (str_of-ne b'y' x (omega arith)))
    ∙ ap (λ parts. str_of x ∷ parts)
        (split_whole (codes "y") (str_of y)
          (Clear-of_head b'y' [] (str_of y) [] (str_of-ne b'y' y (omega arith))))

coords_inj :
    (x y u v : ℕ)
    → str_of x ++ (codes "y" ++ str_of y) ≡ str_of u ++ (codes "y" ++ str_of v)
    → (x ≡ u) × (y ≡ v)
coords_inj x y u v h =
    let same : ◌≡◌ {A = List Text} (str_of x ∷ str_of y ∷ []) (str_of u ∷ str_of v ∷ []) =
      sym (split_coords x y) ∙ ap (λ t. split t (codes "y")) h ∙ split_coords u v in
    (str_of_inj x u (cc), str_of_inj y v (cc))

append_cancel : (s t u : Text) → s ++ t ≡ s ++ u → t ≡ u
append_cancel [] t u h = h
append_cancel (c ∷ s) t u h = append_cancel s t u (cc)

-- Names of one type are equal only at equal coordinates.
pub node_name_inj :
    (node_type : Text) (x y u v : ℕ)
    → node_name node_type x y ≡ node_name node_type u v
    → (x ≡ u) × (y ≡ v)
node_name_inj node_type x y u v h =
    let tails = append_cancel node_type _ _ h in
    coords_inj x y u v (append_cancel (codes "_x") _ _ tails)

module _ {ℓ} {A : Type ℓ} (f : ℕ → A) where
  get_item-map-range_from :
      (lo n i : ℕ) → i < n → get_item (map f (range_from lo n)) i ≡ ok (f (lo + i))
  get_item-map-range_from lo zero i h = elim h [ ]
  get_item-map-range_from lo (suc n) zero h = ap (λ k. ok (f k)) (omega arith)
  get_item-map-range_from lo (suc n) (suc i) h =
      get_item-map-range_from (suc lo) n i (omega arith) ∙ ap (λ k. ok (f k)) (omega arith)

  pub get_item-map-range : (n i : ℕ) → i < n → get_item (map f (range n)) i ≡ ok (f i)
  get_item-map-range n i h = get_item-map-range_from 0 n i h ∙ ap (λ k. ok (f k)) (omega arith)

pub get_item-range : (n i : ℕ) → i < n → get_item (range n) i ≡ ok i
get_item-range n i h = ap (λ l. get_item l i) (sym map_id) ∙ get_item-map-range (λ k. k) n i h
  where
    map_id : map (λ k. k) (range n) ≡ range n
    map_id = map-id (range n)

-- A table holds at each place the node that is named by it.
pub at-create_columns :
    (node_type : Text) (n y_range x y : ℕ)
    → x < n
    → y < y_range
    → at (create_columns node_type n y_range) x y ≡ ok (node node_type x y)
at-create_columns node_type n y_range x y hx hy = rw (
  get_item-map-range (λ x'. create_nodes node_type x' y_range) n x hx,
  get_item-map-range (λ y'. node node_type x y') y_range y hy,
)

module _ {ℓ} {A : Type ℓ} where
  pub Memᴰ-get_item : (xs : List A) (i : ℕ) (a : A) → get_item xs i ≡ ok a → Memᴰ a xs
  Memᴰ-get_item [] i a h = cc
  Memᴰ-get_item (x ∷ xs) zero a h = Memᴰ.head (cc)
  Memᴰ-get_item (x ∷ xs) (suc i) a h = Memᴰ.tail (Memᴰ-get_item xs i a h)

Memᴰ-names :
    (rows : List (List Node)) (row : List Node) (n : Node)
    → Memᴰ row rows
    → Memᴰ n row
    → Memᴰ n.name (names rows)
Memᴰ-names [] row n h m = absurd (Memᴰ.not-nil h)
Memᴰ-names (r ∷ rows) row n (Memᴰ.head e) m =
    Memᴰ.append_left (names rows) (Memᴰ.map (λ k. k.name) (subst (Memᴰ n) e m))
Memᴰ-names (r ∷ rows) row n (Memᴰ.tail later) m =
    Memᴰ.append_right (map (λ k. k.name) r) (Memᴰ-names rows row n later m)

-- What indexing a table finds is one of its nodes.
pub Memᴰ-at :
    (rows : List (List Node)) (x y : ℕ) (n : Node) → at rows x y ≡ ok n → Memᴰ n.name (names rows)
Memᴰ-at rows x y n h =
    let (row, found, in_row) = >>=-eq-ok (get_item rows x) (λ r. get_item r y) h in
    Memᴰ-names rows row n (Memᴰ-get_item rows x row found) (Memᴰ-get_item row y n in_row)
