-- ===== src/Bd/HbmRefused.antt =====
-- The banks that dut_hbm_mmap_tcl refuses, and the HBM channels that arm_hbm_tcl opens.
use mathlib.Core.List.Memᴰ
use mathlib.Core.List.{Memᴰ}
use rapidstream_noc.Common.{
  ℕ, zero, suc, ◌+◌, ◌/◌, ◌≤◌, ◌<◌, ◌≡◌, refl, ap, inl, inr, List, [], ◌∷◌, ◌++◌, Bool, Bool-cases,
  ltb, leb, map, range_from, get_elem?, none, arith, Dict, ok, err, key_error, length,
  if◌then◌else◌,
}
use rapidstream_noc.Common.Text.{Text}
use rapidstream_noc.Bd.{MmapAttr}
use rapidstream_noc.Bd.Hbm.{NmuPortCnt, get_hbm_noc_port, hbm_connections, dut_hbm_mmap_tcl}
use rapidstream_noc.Common.{Returns, true, ◌/◌}
use rapidstream_noc.Bd.ArmHbm.{create_hbm_noc, num_hbm_ctrl, max_of_banks, arm_hbm_tcl}
use rapidstream_noc.Bd.ArmHbm.{num_hbm_ctrl, max_bank, max_of_banks, arm_hbm_tcl}
use rapidstream_noc.Bd.HbmCounters.{
  Counted, Beyond, get_hbm_noc_port-Counted, get_hbm_noc_port-large,
}
use rapidstream_noc.Bd.HbmPorts.{fresh, ones}

no_port :
    (i : ℕ) (c : NmuPortCnt) (cnt : List ℕ) (p : Text) (r : MmapAttr) (ports : Dict MmapAttr)
    → get_hbm_noc_port cnt r.bank ≡ err key_error
    → hbm_connections i c cnt ((p, r) ∷ ports) ≡ err key_error
unfolding hbm_connections
no_port i c cnt p r ports e = rw e refl

later_refused :
    (i : ℕ) (c : NmuPortCnt) (cnt next : List ℕ) (p : Text) (r : MmapAttr) (ports : Dict MmapAttr)
    (m : Text)
    → get_hbm_noc_port cnt r.bank ≡ ok (m, next)
    → ((c : NmuPortCnt) → hbm_connections (suc i) c next ports ≡ err key_error)
    → hbm_connections i c cnt ((p, r) ∷ ports) ≡ err key_error
unfolding hbm_connections
later_refused i c cnt next p r ports m e refused = rw (e, refused) refl

hbm_connections-large :
    (i : ℕ) (earlier ports : Dict MmapAttr) (c : NmuPortCnt) (cnt : List ℕ) (port : Text)
    (attr : MmapAttr)
    → Counted cnt earlier
    → Beyond cnt
    → Memᴰ (port, attr) ports
    → 32 ≤ attr.bank
    → hbm_connections i c cnt ports ≡ err key_error
hbm_connections-large i earlier [] c cnt port attr _ _ m _ = absurd (Memᴰ.not-nil m)
hbm_connections-large i earlier ((p, r) ∷ ports) c cnt port attr counted beyond m large =
    elim (Bool-cases (ltb r.bank 32)) [
      | inl h ↦
          let (next, found, counted', beyond') =
            get_hbm_noc_port-Counted earlier cnt p r counted (ground (arith, h)) in
          let listed : Memᴰ (port, attr) ports = elim (Memᴰ.cases_cons m) [
            | inl same ↦ absurd (ground (arith, h, ap (λ e. e.1.bank) same, large))
            | inr rest ↦ rest
          ] in
          later_refused i c cnt next p r ports _ found (λ c'.
            hbm_connections-large (suc i) (earlier ++ (p, r) ∷ []) ports c' next port attr counted'
              (beyond' beyond) listed large)
      | inr h ↦
          no_port i c cnt p r ports
            (get_hbm_noc_port-large cnt r.bank (beyond r.bank (ground (arith, h))))
    ]

nones : (lo n b : ℕ) → n ≤ b → get_elem? {A = ℕ} (map (λ _. 1) (range_from lo n)) b ≡ none
nones lo zero b h = refl
nones lo (suc n) zero h = absurd (omega arith)
nones lo (suc n) (suc b) h = nones (suc lo) n b (omega arith)

-- A port on a bank from 32 on stops dut_hbm_mmap_tcl by a KeyError.
pub dut_hbm_mmap_tcl_refused :
    (ports : Dict MmapAttr) (hbm_init_file port : Text) (attr : MmapAttr)
    → Memᴰ (port, attr) ports
    → 32 ≤ attr.bank
    → dut_hbm_mmap_tcl ports hbm_init_file ≡ err key_error
unfolding dut_hbm_mmap_tcl
dut_hbm_mmap_tcl_refused ports hbm_init_file port attr listed large =
    rw
      (hbm_connections-large 0 [] ports (record { reg = 0; hbm = 0 }) fresh port attr
        (λ b h. ones 0 32 b h) (λ b h. nones 0 32 b h) listed large)
      refl

max_bank-le : (most : ℕ) (ports : Dict MmapAttr) → most ≤ max_bank most ports
max_bank-le most [] = omega arith
max_bank-le most ((p, r) ∷ ports) = ground (arith, max_bank-le r.bank ports, max_bank-le most ports)

max_bank-at :
    (most : ℕ) (ports : Dict MmapAttr) (port : Text) (attr : MmapAttr)
    → Memᴰ (port, attr) ports
    → attr.bank ≤ max_bank most ports
max_bank-at most [] port attr m = absurd (Memᴰ.not-nil m)
max_bank-at most ((p, r) ∷ ports) port attr m = elim (Memᴰ.cases_cons m) [
  | inl same ↦
      ground (arith, ap (λ e. e.1.bank) same, max_bank-le r.bank ports, max_bank-le most ports)
  | inr rest ↦ max_bank-at (if ltb most r.bank then r.bank else most) ports port attr rest
]

max_of_banks-at :
    (ports : Dict MmapAttr) (port : Text) (attr : MmapAttr)
    → Memᴰ (port, attr) ports
    → (most : ℕ) × (max_of_banks ports ≡ ok most) × (attr.bank ≤ most)
max_of_banks-at [] port attr m = absurd (Memᴰ.not-nil m)
max_of_banks-at ((p, r) ∷ ports) port attr m = (
  max_bank r.bank ports,
  refl,
  elim (Memᴰ.cases_cons m) [
    | inl same ↦ omega (arith, ap (λ e. e.1.bank) same, max_bank-le r.bank ports)
    | inr rest ↦ max_bank-at r.bank ports port attr rest
  ],
)

-- For at least one port and at most 64, arm_hbm_tcl returns, and the NoC that it creates has the HBM
-- channel of every port's bank.
pub arm_hbm_tcl-channels :
    (ports : Dict MmapAttr) (fpd : Bool) (port : Text) (attr : MmapAttr)
    → Memᴰ (port, attr) ports
    → length ports ≤ num_hbm_ctrl
    → Returns
        (λ tcl. (hbm_chnl : ℕ) × Memᴰ (create_hbm_noc hbm_chnl) tcl × (attr.bank / 2 < hbm_chnl))
        (arm_hbm_tcl ports fpd)
unfolding arm_hbm_tcl
arm_hbm_tcl-channels ports fpd port attr listed few =
    let (most, found, less) = max_of_banks-at ports port attr listed in
    let enough : leb (length ports) num_hbm_ctrl ≡ true = ground (arith, few) in
    rw (found, enough)
      (_, refl, ((most + 1 + 1) / 2, Memᴰ.tail (Memᴰ.tail (Memᴰ.head refl)), omega (arith, less)))
