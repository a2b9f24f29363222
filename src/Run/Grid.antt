-- ===== src/Run/Grid.antt =====
-- The devices of both supported names are made.
use rapidstream_noc.Common.{
  ℕ, zero, suc, ◌*◌, ◌/◌, ◌<◌, ◌≡◌, refl, sym, ap, ◌∙◌, List, [], ◌∷◌, All, Returns, ok, arith,
  get_item, length,
}
use mathlib.Core.Path.{subst}
use rapidstream_noc.Device.{Device, init, get_num_nmu_in_slot, get_num_nsu_in_slot}
use rapidstream_noc.Device.Slots.{IsAccepted, init_counts}
use rapidstream_noc.Fabric.Layout.{IsLink}
use rapidstream_noc.Vp1802
use rapidstream_noc.Vh1582
use rapidstream_noc.Vp1802.{vp1802_nocgraph}
use rapidstream_noc.Vp1802.Links.{vp1802_build-made}
use rapidstream_noc.Vh1582.{vh1582_nocgraph}
use rapidstream_noc.Vh1582.Links.{vh1582_build-made}
use rapidstream_noc.Run.Options.{DeviceEnum, vh1582, vp1802}
use rapidstream_noc.Run.Devices.{vp1802_data, vh1582_data, device_of}

-- The rows of NMUs and NSUs in each SLR of a device.
abbrev pub rows_of : DeviceEnum → List ℕ
rows_of vp1802 = 7 ∷ 6 ∷ 6 ∷ 6 ∷ []
rows_of vh1582 = 7 ∷ 6 ∷ []

get_item-lt : (xs : List ℕ) (i x : ℕ) → get_item xs i ≡ ok x → i < length xs
get_item-lt [] i x e = cc
get_item-lt (y ∷ xs) zero x e = omega arith
get_item-lt (y ∷ xs) (suc i) x e = omega (arith, get_item-lt xs i x e)

half : (rows : ℕ) → rows * 4 / 2 ≡ rows * 2
half rows = omega arith

abbrev MadeWith : ℕ → ℕ → ℕ → Device → Type 0
MadeWith x y n d =
    (get_num_nmu_in_slot d x y ≡ ok n)
    × (get_num_nsu_in_slot d x y ≡ ok n)
    × All (IsLink d.noc_graph) d.noc_graph.edges

counted :
    (d : Device)
    → IsAccepted d
    → (x y rows : ℕ) → x < d.slot_width
    → get_item d.noc_graph.rows_per_slr y ≡ ok rows
    → y < d.slot_height
    → rows * d.noc_graph.num_col / d.slot_width ≡ rows * 2
    → All (IsLink d.noc_graph) d.noc_graph.edges
    → Returns (MadeWith x y (rows * 2)) (init d)
counted d accepted x y rows left at_y below share links =
    let (made, inited, same_graph, _, _, nmus, nsus) =
      init_counts d accepted x y rows left below at_y in
    (
      made,
      inited,
      (
        nmus ∙ ap ok share,
        nsus ∙ ap ok share,
        subst (λ g. All (IsLink g) g.edges) (sym same_graph) links,
      ),
    )

-- For both supported devices the script makes the device without an exception; a slot of its two columns has two
-- NMUs, and two NSUs, for each row of its SLR; and every edge of the device's NoC graph joins two
-- different nodes of the graph with the bandwidth of the NoC.
pub device_of-counts :
    (name : DeviceEnum) (x y rows : ℕ)
    → x < 2
    → get_item (rows_of name) y ≡ ok rows
    → Returns
        (λ d.
          (get_num_nmu_in_slot d x y ≡ ok (rows * 2))
          × (get_num_nsu_in_slot d x y ≡ ok (rows * 2))
          × All (IsLink d.noc_graph) d.noc_graph.edges)
        (device_of name)
unfolding device_of vp1802_nocgraph vh1582_nocgraph
device_of-counts vp1802 x y rows left at_y =
    let (es, built, links) =
      vp1802_build-made 4 4 (rows_of vp1802) (omega arith) refl (omega arith) in
    let d : Device = vp1802_data (record (Vp1802.bare_graph 4 4 (rows_of vp1802)) { edges = es }) in
    let accepted : IsAccepted d = record {
      slrs = refl;
      rows = refl;
      columns = omega arith;
      first_column = refl;
    } in
    rw built (
      counted d accepted x y rows left at_y (get_item-lt (rows_of vp1802) y rows at_y) (half rows)
        links)
device_of-counts vh1582 x y rows left at_y =
    let (es, built, links) =
      vh1582_build-made 2 (rows_of vh1582) (omega arith) refl (omega arith, (omega arith, tt)) in
    let d : Device = vh1582_data (record (Vh1582.bare_graph 2 4 (rows_of vh1582)) { edges = es }) in
    let accepted : IsAccepted d = record {
      slrs = refl;
      rows = refl;
      columns = omega arith;
      first_column = refl;
    } in
    rw built (
      counted d accepted x y rows left at_y (get_item-lt (rows_of vh1582) y rows at_y) (half rows)
        links)
