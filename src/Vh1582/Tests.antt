-- ===== src/Vh1582/Tests.antt =====
-- Small graphs of the VH1582's builder, and the theorem at the numbers of the device.
use rapidstream_noc.Common.{refl, [], ◌∷◌, All, arith, Returns}
use rapidstream_noc.Fabric.Layout.{IsLink}
use rapidstream_noc.Vh1582.{build}
use rapidstream_noc.Vh1582.Links.{vh1582_build-IsLink}

vh1582_build-IsLink_example : Returns (λ g. All (IsLink g) g.edges) (build 2 4 (7 ∷ 6 ∷ []))
vh1582_build-IsLink_example = vh1582_build-IsLink 2 (7 ∷ 6 ∷ []) (omega arith) refl (omega arith)
