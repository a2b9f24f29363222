-- ===== src/Bd/HbmApart.antt =====
-- What the interfaces and HBM ports that dut_hbm_mmap_tcl chooses keep apart.
use rapidstream_noc.Bd.ArmHbm.{arm_hbm_port}
use rapidstream_noc.Common.{
  ℕ, ◌+◌, ◌≤◌, ◌<◌, ◌≡◌, ◌≢◌, ◌⊎◌, refl, ◌∙◌, List, Bool, [], ◌∷◌, ◌++◌, map, All, All-map,
  Bool-cases, inl, inr, arith, Dict, Returns, if◌then◌else◌, true, sym, ap,
}
use rapidstream_noc.Common.Text.{Text, codes}
use rapidstream_noc.Common.Text.Equality.{ne_of_clash}
use rapidstream_noc.Bd.{MmapAttr, is_dedicated}
use rapidstream_noc.Bd.Hbm.{count_if, hbm_port, hbm_nmu, regular_nmu, hbm_connections}
use rapidstream_noc.Bd.Names.{interface_inj, hbm_port_inj, hbm_port-arm}
use rapidstream_noc.Bd.HbmCounters.{is_on, count_if-append}
use rapidstream_noc.Bd.HbmPorts.{is_over_noc, connections_after, fresh, hbm_connections-fresh}

-- Pairwise different.
abbrev pub Distinct : List Text → Type 0
Distinct [] = Unit
Distinct (n ∷ names) = All (λ m. n ≢ m) names × Distinct names

-- An interface that a port after some ports may get.
abbrev Later : Dict MmapAttr → Text → Type 0
Later earlier slave =
    ((k : ℕ) × (count_if is_dedicated earlier ≤ k) × (slave ≡ hbm_nmu k))
    ⊎ ((k : ℕ) × (count_if is_over_noc earlier ≤ k) × (slave ≡ regular_nmu k))

Later-back :
    (earlier : Dict MmapAttr) (port : Text) (attr : MmapAttr) (slave : Text)
    → Later (earlier ++ (port, attr) ∷ []) slave
    → Later earlier slave
Later-back earlier port attr slave later =
    let dedicated = count_if-append is_dedicated earlier port attr in
    let over_noc = count_if-append is_over_noc earlier port attr in
    elim later [
      | inl (k, more, same) ↦ inl (k, omega (arith, more, dedicated), same)
      | inr (k, more, same) ↦ inr (k, omega (arith, more, over_noc), same)
    ]

slaves-Later :
    (earlier ports : Dict MmapAttr)
    → All (Later earlier) (map (λ r. r.noc_s_port) (connections_after earlier ports))
slaves-Later earlier [] = tt
slaves-Later earlier ((port, attr) ∷ ports) = (
  elim (Bool-cases (is_dedicated attr)) [
    | inl h ↦ rw h (inl (count_if is_dedicated earlier, omega arith, refl))
    | inr h ↦ rw h (inr (count_if is_over_noc earlier, omega arith, refl))
  ],
  All-map (Later-back earlier port attr) _ (slaves-Later (earlier ++ (port, attr) ∷ []) ports),
)

slaves-Distinct :
    (earlier ports : Dict MmapAttr)
    → Distinct (map (λ r. r.noc_s_port) (connections_after earlier ports))
slaves-Distinct earlier [] = tt
slaves-Distinct earlier ((port, attr) ∷ ports) =
    let dedicated = count_if-append is_dedicated earlier port attr in
    let over_noc = count_if-append is_over_noc earlier port attr in
    let all_later = slaves-Later (earlier ++ (port, attr) ∷ []) ports in
    let rest = slaves-Distinct (earlier ++ (port, attr) ∷ []) ports in
    elim (Bool-cases (is_dedicated attr)) [
      | inl h ↦ rw h (
        All-map (not_dedicated (earlier ++ (port, attr) ∷ []) (rw h at dedicated)) _ all_later,
        rest,
      )
      | inr h ↦ rw h (
        All-map (not_regular (earlier ++ (port, attr) ∷ []) (rw h at over_noc)) _ all_later,
        rest,
      )
    ]
  where
    not_dedicated :
        (after : Dict MmapAttr)
        → count_if is_dedicated after ≡ 1 + count_if is_dedicated earlier
        → (m : Text) → Later after m
        → hbm_nmu (count_if is_dedicated earlier) ≢ m
    not_dedicated after one_more m (inl (k, more, is_m)) e =
        omega (arith, more, one_more, interface_inj (codes "HBM") (codes "_AXI") _ k (e ∙ is_m))
    not_dedicated after one_more m (inr (k, more, is_m)) e =
        ne_of_clash (hbm_nmu (count_if is_dedicated earlier)) (regular_nmu k) refl (e ∙ is_m)

    not_regular :
        (after : Dict MmapAttr)
        → count_if is_over_noc after ≡ 1 + count_if is_over_noc earlier
        → (m : Text) → Later after m
        → regular_nmu (count_if is_over_noc earlier) ≢ m
    not_regular after one_more m (inl (k, more, is_m)) e =
        ne_of_clash (regular_nmu (count_if is_over_noc earlier)) (hbm_nmu k) refl (e ∙ is_m)
    not_regular after one_more m (inr (k, more, is_m)) e =
        omega (arith, more, one_more, interface_inj (codes "S") (codes "_AXI") _ (k + 8) (e ∙ is_m))

-- When every bank is below 32, no two ports of the design get the same interface of the NoC.
pub hbm_interfaces-Distinct :
    (ports : Dict MmapAttr)
    → All (λ (port, attr). attr.bank < 32) ports
    → Returns
        (λ rs. Distinct (map (λ r. r.noc_s_port) rs))
        (hbm_connections 0 (record { reg = 0; hbm = 0 }) fresh ports)
hbm_interfaces-Distinct ports small =
    (connections_after [] ports, hbm_connections-fresh ports small, slaves-Distinct [] ports)

-- An HBM port that one of some ports, after others, may get.
abbrev Room : Dict MmapAttr → Dict MmapAttr → Text → Type 0
Room earlier ports m =
    (b n : ℕ) × (1 + count_if (is_on b) earlier ≤ n)
    × (n ≤ count_if (is_on b) earlier + count_if (is_on b) ports)
    × (m ≡ hbm_port b n)

count_if-cons :
    (test : MmapAttr → Bool) (port : Text) (attr : MmapAttr) (ports : Dict MmapAttr)
    → count_if test ((port, attr) ∷ ports) ≡ (if test attr then 1 else 0) + count_if test ports
count_if-cons test port attr ports = elim (Bool-cases (test attr)) [
  | inl h ↦ rw h (omega arith)
  | inr h ↦ rw h (omega arith)
]

masters-Room :
    (earlier ports : Dict MmapAttr)
    → All (Room earlier ports) (map (λ r. r.noc_m_port) (connections_after earlier ports))
masters-Room earlier [] = tt
masters-Room earlier ((port, attr) ∷ ports) =
    let itself : is_on attr.bank attr ≡ true = ground arith in
    (
      (
        attr.bank,
        1 + count_if (is_on attr.bank) earlier,
        omega arith,
        rw itself (omega arith),
        refl,
      ),
      All-map
          (λ m (b, n, more, less, is_m). (
            b,
            n,
            omega (arith, more, count_if-append (is_on b) earlier port attr),
            omega (
              arith,
              less,
              count_if-append (is_on b) earlier port attr,
              count_if-cons (is_on b) port attr ports,
            ),
            is_m,
          ))
          _ (masters-Room (earlier ++ (port, attr) ∷ []) ports),
    )

masters-Distinct :
    (earlier ports : Dict MmapAttr)
    → ((b : ℕ) → count_if (is_on b) earlier + count_if (is_on b) ports ≤ 2)
    → Distinct (map (λ r. r.noc_m_port) (connections_after earlier ports))
masters-Distinct earlier [] few = tt
masters-Distinct earlier ((port, attr) ∷ ports) few = (
  All-map apart _ (masters-Room (earlier ++ (port, attr) ∷ []) ports),
  masters-Distinct (earlier ++ (port, attr) ∷ []) ports (λ b. omega (
    arith,
    few b,
    count_if-append (is_on b) earlier port attr,
    count_if-cons (is_on b) port attr ports,
  )),
)
  where
    apart :
        (m : Text)
        → Room (earlier ++ (port, attr) ∷ []) ports m
        → hbm_port attr.bank (1 + count_if (is_on attr.bank) earlier) ≢ m
    apart m (b, n, more, less, is_m) e =
        let (same_bank, parity) = hbm_port_inj attr.bank b _ n (e ∙ is_m) in
        let itself : is_on b attr ≡ true = ground (arith, same_bank) in
        omega (
          arith,
          parity,
          ap (λ k. count_if (is_on k) earlier) same_bank,
          rw itself at (few b),
          more,
          less,
          rw itself at (count_if-append (is_on b) earlier port attr),
        )

-- When every bank is below 32 and has at most two ports of the design, no two of them are connected to
-- the same HBM port.
pub hbm_ports-Distinct :
    (ports : Dict MmapAttr)
    → All (λ (port, attr). attr.bank < 32) ports
    → ((b : ℕ) → count_if (is_on b) ports ≤ 2)
    → Returns
        (λ rs. Distinct (map (λ r. r.noc_m_port) rs))
        (hbm_connections 0 (record { reg = 0; hbm = 0 }) fresh ports)
hbm_ports-Distinct ports small few = (
  connections_after [] ports,
  hbm_connections-fresh ports small,
  masters-Distinct [] ports (λ b. omega (arith, few b)),
)

-- When every bank is below 32 and has at most one port of the design, none of them is connected to an
-- HBM port that arm_hbm_tcl connects to ARM.
pub hbm_ports_beside_arm :
    (ports : Dict MmapAttr) (b : ℕ)
    → All (λ (port, attr). attr.bank < 32) ports
    → ((c : ℕ) → count_if (is_on c) ports ≤ 1)
    → Returns
        (λ rs. All (λ m. m ≢ arm_hbm_port b) (map (λ r. r.noc_m_port) rs))
        (hbm_connections 0 (record { reg = 0; hbm = 0 }) fresh ports)
hbm_ports_beside_arm ports b small few = (
  connections_after [] ports,
  hbm_connections-fresh ports small,
  All-map
      (λ m (c, n, more, less, is_m) e.
        hbm_port-arm c n b (omega (arith, more, less, few c)) (sym is_m ∙ e))
      _ (masters-Room [] ports),
)
