-- ===== src/Bd/HbmPorts.antt =====
-- The ports that dut_hbm_mmap_tcl chooses, by the ports before them.
use rapidstream_noc.Common.{
  ℕ, zero, suc, ◌+◌, ◌<◌, ◌≡◌, refl, ap, ◌∙◌, List, [], ◌∷◌, ◌++◌, map, range, range_from, All, not,
  Bool-cases, if◌then◌else◌, length, length-append, get_elem?, ok, some, arith, Dict, Bool, inl,
  inr,
}
use mathlib.Core.Path.{subst}
use rapidstream_noc.Common.Text.{Text, codes}
use rapidstream_noc.Tcl.{join}
use rapidstream_noc.Bd.HbmCounters.{is_on, count_if-append, Counted, get_hbm_noc_port-Counted}
use rapidstream_noc.Bd.{MmapAttr, is_dedicated}
use rapidstream_noc.Bd.Hbm.{
  count_if, hbm_port, get_hbm_noc_port, noc_s_port_of, Connection, NmuPortCnt, hbm_nmu, regular_nmu,
  hbm_connections, hbm_interfaces, hbm_connect, hbm_busif, dut_hbm_mmap_tcl,
}

-- A port whose attribute `noc` is set.
abbrev pub is_over_noc : MmapAttr → Bool
is_over_noc attr = not (is_dedicated attr)

-- The connection of a port, by the ports before it.
abbrev pub connection_after : Dict MmapAttr → Text → MmapAttr → Connection
connection_after earlier port attr = record {
  i = length earlier;
  port = port;
  attr = attr;
  noc_s_port =
      if is_dedicated attr
      then hbm_nmu (count_if is_dedicated earlier)
      else regular_nmu (count_if is_over_noc earlier);
  noc_m_port = hbm_port attr.bank (1 + count_if (is_on attr.bank) earlier);
}

abbrev pub connections_after : Dict MmapAttr → Dict MmapAttr → List Connection
connections_after earlier [] = []
connections_after earlier ((port, attr) ∷ ports) =
    connection_after earlier port attr ∷ connections_after (earlier ++ (port, attr) ∷ []) ports

hbm_connections-cons :
    (i : ℕ) (c : NmuPortCnt) (cnt next : List ℕ) (port : Text) (attr : MmapAttr)
    (ports : Dict MmapAttr) (m : Text) (rest : List Connection)
    → get_hbm_noc_port cnt attr.bank ≡ ok (m, next)
    → hbm_connections (suc i) (noc_s_port_of c attr).1 next ports ≡ ok rest
    → hbm_connections i c cnt ((port, attr) ∷ ports)
      ≡ ok (
          record {
            i = i;
            port = port;
            attr = attr;
            noc_s_port = (noc_s_port_of c attr).0;
            noc_m_port = m;
          }
          ∷ rest)
unfolding hbm_connections
hbm_connections-cons i c cnt next port attr ports m rest e1 e2 = rw (e1, e2) refl

-- The slave interface of a port and the counters after it.
slave-after :
    (earlier : Dict MmapAttr) (c : NmuPortCnt) (port : Text) (attr : MmapAttr)
    → c.hbm ≡ count_if is_dedicated earlier
    → c.reg ≡ count_if is_over_noc earlier
    → ((noc_s_port_of c attr).0 ≡ (connection_after earlier port attr).noc_s_port)
      × ((noc_s_port_of c attr).1.hbm ≡ count_if is_dedicated (earlier ++ (port, attr) ∷ []))
      × ((noc_s_port_of c attr).1.reg ≡ count_if is_over_noc (earlier ++ (port, attr) ∷ []))
slave-after earlier c port attr hbm_is reg_is =
    let dedicated = count_if-append is_dedicated earlier port attr in
    let over_noc = count_if-append is_over_noc earlier port attr in
    elim (Bool-cases (is_dedicated attr)) [
      | inl h ↦ rw h (
        ap hbm_nmu hbm_is,
        omega (arith, hbm_is, rw h at dedicated),
        omega (arith, reg_is, rw h at over_noc),
      )
      | inr h ↦ rw h (
        ap regular_nmu reg_is,
        omega (arith, hbm_is, rw h at dedicated),
        omega (arith, reg_is, rw h at over_noc),
      )
    ]

hbm_connections-after :
    (earlier ports : Dict MmapAttr) (c : NmuPortCnt) (cnt : List ℕ)
    → c.hbm ≡ count_if is_dedicated earlier
    → c.reg ≡ count_if is_over_noc earlier
    → Counted cnt earlier
    → All (λ (port, attr). attr.bank < 32) ports
    → hbm_connections (length earlier) c cnt ports ≡ ok (connections_after earlier ports)
unfolding hbm_connections get_hbm_noc_port
hbm_connections-after earlier [] c cnt _ _ _ _ = refl
hbm_connections-after earlier ((port, attr) ∷ ports) c cnt hbm_is reg_is counted (small, smalls) =
    let (next, found, counted', _) = get_hbm_noc_port-Counted earlier cnt port attr counted small in
    let (slave_is, hbm_is', reg_is') = slave-after earlier c port attr hbm_is reg_is in
    let later : hbm_connections (suc (length earlier)) (noc_s_port_of c attr).1 next ports
        ≡ ok (connections_after (earlier ++ (port, attr) ∷ []) ports) =
      subst
        (λ n.
          hbm_connections n (noc_s_port_of c attr).1 next ports
          ≡ ok (connections_after (earlier ++ (port, attr) ∷ []) ports))
        (length-append earlier ((port, attr) ∷ []) ∙ omega arith)
        (hbm_connections-after (earlier ++ (port, attr) ∷ []) ports _ next hbm_is' reg_is' counted'
          smalls) in
    hbm_connections-cons (length earlier) c cnt next port attr ports _ _ found later
    ∙ ap
        (λ slave. ok (
          record {
            i = length earlier;
            port = port;
            attr = attr;
            noc_s_port = slave;
            noc_m_port = hbm_port attr.bank (1 + count_if (is_on attr.bank) earlier);
          }
          ∷ connections_after (earlier ++ (port, attr) ∷ []) ports))
        slave_is

-- The counters of the 32 banks before the first port.
abbrev pub fresh : List ℕ
fresh = map (λ _. 1) (range 32)

pub ones : (lo n b : ℕ) → b < n → get_elem? {A = ℕ} (map (λ _. 1) (range_from lo n)) b ≡ some 1
ones lo zero b h = absurd (omega arith)
ones lo (suc n) zero h = refl
ones lo (suc n) (suc b) h = ones (suc lo) n b (omega arith)

-- When every bank is below 32, the loop of `dut_hbm_mmap_tcl` gives the connections that the ports
-- before each one decide.
pub hbm_connections-fresh :
    (ports : Dict MmapAttr)
    → All (λ (port, attr). attr.bank < 32) ports
    → hbm_connections 0 (record { reg = 0; hbm = 0 }) fresh ports ≡ ok (connections_after [] ports)
hbm_connections-fresh ports small =
    hbm_connections-after [] ports _ fresh refl refl (λ b h. ones 0 32 b h) small

-- When every bank is below 32, dut_hbm_mmap_tcl returns the commands of the connections that the
-- ports before each one decide: a dedicated interface is numbered by the dedicated ones before it, a
-- regular one by the regular ones, and the ports of a bank take its two HBM ports in turn, from the
-- second one on.
pub dut_hbm_mmap_tcl-connections :
    (ports : Dict MmapAttr) (hbm_init_file : Text)
    → All (λ (port, attr). attr.bank < 32) ports
    → dut_hbm_mmap_tcl ports hbm_init_file
      ≡ ok (
          hbm_interfaces ports hbm_init_file ∷ map hbm_connect (connections_after [] ports)
          ++ (hbm_busif (join (codes ":") (map (λ r. r.noc_s_port) (connections_after [] ports)))
              ∷ codes "endgroup"
              ∷ []))
unfolding dut_hbm_mmap_tcl
dut_hbm_mmap_tcl-connections ports hbm_init_file small = rw (hbm_connections-fresh ports small) refl
