-- ===== src/Bd/DdrPorts.antt =====
-- The interfaces of the memory controllers in dut_ddr_mmap_tcl.
use mathlib.Core.List.Memᴰ
use mathlib.Core.List.{Memᴰ}
use mathlib.Core.List.{map-append}
use mathlib.Core.Path.{subst}
use rapidstream_noc.Common.{
  ℕ, zero, suc, ◌+◌, ◌/◌, ◌%◌, ◌≤◌, ◌<◌, ◌≡◌, refl, sym, ap, ◌∙◌, inl, inr, List, [], ◌∷◌, ◌++◌,
  Bool, ◌==◌, map, range, range_from, All, arith, Dict, Result, ok, err, index_error, ok_inj,
  >>=-eq-ok, get_item,
}
use rapidstream_noc.Common.Text.{Text, codes, str_of}
use rapidstream_noc.Select.{update_at}
use rapidstream_noc.Bd.{MmapAttr, interface}
use rapidstream_noc.Bd.Hbm.{count_if}
use rapidstream_noc.Bd.Ddr.{
  count_mcs, each_mc, Connection, ddr_si, ddr_connections, ddr_connect, each_busif,
  dut_ddr_mmap_tcl,
}

-- A port on the memory controller with the number `mc`.
abbrev pub is_on_mc : ℕ → MmapAttr → Bool
is_on_mc mc attr = attr.bank / 4 == mc

-- How many ports each of the three memory controllers has.
abbrev pub mc_counts : Dict MmapAttr → List ℕ
mc_counts ports =
    count_if (is_on_mc 0) ports ∷ count_if (is_on_mc 1) ports ∷ count_if (is_on_mc 2) ports ∷ []

abbrev three : ℕ → ℕ → ℕ → List ℕ
three a b c = a ∷ b ∷ c ∷ []

three_eq :
    (a b c x y z : ℕ)
    → a ≡ x
    → b ≡ y
    → c ≡ z
    → ◌≡◌ {A = Result (List ℕ)} (ok (three a b c)) (ok (three x y z))
three_eq a b c x y z e f g = cc

count_mcs-from :
    (a b c : ℕ) (ports : Dict MmapAttr)
    → All (λ (port, attr). attr.bank < 12) ports
    → count_mcs (three a b c) ports
      ≡ ok (
          three
            (a + count_if (is_on_mc 0) ports)
            (b + count_if (is_on_mc 1) ports)
            (c + count_if (is_on_mc 2) ports))
unfolding count_mcs update_at
count_mcs-from a b c [] _ = three_eq a b c _ _ _ (omega arith) (omega arith) (omega arith)
count_mcs-from a b c ((port, attr) ∷ ports) (small, smalls) =
    by_mc (λ x y z. count_mcs-from x y z ports smalls) (attr.bank / 4) refl (omega arith)
  where
    by_mc :
        ((x y z : ℕ)
          → count_mcs (three x y z) ports
            ≡ ok (
                three
                  (x + count_if (is_on_mc 0) ports)
                  (y + count_if (is_on_mc 1) ports)
                  (z + count_if (is_on_mc 2) ports)))
        → (mc : ℕ) → attr.bank / 4 ≡ mc
        → mc < 3
        → count_mcs (three a b c) ((port, attr) ∷ ports)
          ≡ ok (
              three
                (a + count_if (is_on_mc 0) ((port, attr) ∷ ports))
                (b + count_if (is_on_mc 1) ((port, attr) ∷ ports))
                (c + count_if (is_on_mc 2) ((port, attr) ∷ ports)))
    by_mc rest zero is_mc h =
        rw is_mc (rest (a + 1) b c ∙ three_eq _ _ _ _ _ _ (omega arith) (omega arith) (omega arith))
    by_mc rest (suc zero) is_mc h =
        rw is_mc (rest a (b + 1) c ∙ three_eq _ _ _ _ _ _ (omega arith) (omega arith) (omega arith))
    by_mc rest (suc (suc zero)) is_mc h =
        rw is_mc (rest a b (c + 1) ∙ three_eq _ _ _ _ _ _ (omega arith) (omega arith) (omega arith))
    by_mc rest (suc (suc (suc k))) is_mc h = absurd (omega arith)

count_mcs-large :
    (a b c : ℕ) (ports : Dict MmapAttr) (port : Text) (attr : MmapAttr)
    → Memᴰ (port, attr) ports
    → 12 ≤ attr.bank
    → count_mcs (three a b c) ports ≡ err index_error
unfolding count_mcs update_at
count_mcs-large a b c [] port attr m large = absurd (Memᴰ.not-nil m)
count_mcs-large a b c ((p, r) ∷ ports) port attr m large =
    by_mc (λ x y z listed. count_mcs-large x y z ports port attr listed large) (r.bank / 4) refl
  where
    later : Memᴰ (port, attr) ((p, r) ∷ ports) → r.bank < 12 → Memᴰ (port, attr) ports
    later m small = elim (Memᴰ.cases_cons m) [
      | inl same ↦ absurd (omega (arith, ap (λ e. e.1.bank) same, large))
      | inr rest ↦ rest
    ]

    by_mc :
        ((x y z : ℕ) → Memᴰ (port, attr) ports → count_mcs (three x y z) ports ≡ err index_error)
        → (mc : ℕ) → r.bank / 4 ≡ mc
        → count_mcs (three a b c) ((p, r) ∷ ports) ≡ err index_error
    by_mc rest zero is_mc = rw is_mc (rest (a + 1) b c (later m (omega arith)))
    by_mc rest (suc zero) is_mc = rw is_mc (rest a (b + 1) c (later m (omega arith)))
    by_mc rest (suc (suc zero)) is_mc = rw is_mc (rest a b (c + 1) (later m (omega arith)))
    by_mc rest (suc (suc (suc k))) is_mc = rw is_mc refl

-- The interfaces of memory controllers with some numbers of ports.
abbrev pub named : List ℕ → List (List Text)
named cnts = map (λ cnt. map (λ n. interface (codes "S") n (codes "_AXI")) (range cnt)) cnts

range_from-suc : (lo n : ℕ) → range_from lo (suc n) ≡ range_from lo n ++ (lo + n) ∷ []
range_from-suc lo zero = ap (λ k. k ∷ []) (omega arith)
range_from-suc lo (suc n) =
    ap (λ ks. lo ∷ ks)
      (range_from-suc (suc lo) n ∙ ap (λ k. range_from (suc lo) n ++ k ∷ []) (omega arith))

ddr_sis-suc : (n : ℕ) → map ddr_si (range n) ++ ddr_si n ∷ [] ≡ map ddr_si (range (n + 1))
ddr_sis-suc n =
    let up : suc n ≡ n + 1 = omega arith in
    let next : range n ++ n ∷ [] ≡ range (n + 1) =
      ap (λ k. range n ++ k ∷ []) (omega arith) ∙ sym (range_from-suc 0 n) ∙ ap range up in
    sym (map-append ddr_si (range n) (n ∷ [])) ∙ ap (map ddr_si) next

-- One more port of a memory controller gets its next interface.
one_more :
    (cnts counted : List ℕ) (mc : ℕ)
    → update_at cnts mc (λ n. ok (n + 1)) ≡ ok counted
    → (n : ℕ) × (get_item cnts mc ≡ ok n)
      × (update_at (named cnts) mc (λ names. ok (names ++ ddr_si n ∷ [])) ≡ ok (named counted))
unfolding update_at
one_more [] counted mc e = cc
one_more (cnt ∷ cnts) counted zero e = (
  cnt,
  refl,
  ap (λ names. ok (names ∷ named cnts)) (ddr_sis-suc cnt) ∙ ap (λ l. ok (named l)) (ok_inj e),
)
one_more (cnt ∷ cnts) counted (suc mc) e =
    let (after, made, eq) = >>=-eq-ok (update_at cnts mc (λ n. ok (n + 1))) _ e in
    let (n, found, named_) = one_more cnts after mc made in
    (n, found, rw named_ (ap (λ l. ok (named l)) (ok_inj eq)))

-- The connections of ports after some others, the last of these first: a port gets the interface that
-- is numbered by the ports before it on its memory controller.
abbrev pub ddr_connections_after : ℕ → Dict MmapAttr → Dict MmapAttr → List Connection
ddr_connections_after i earlier [] = []
ddr_connections_after i earlier ((port, attr) ∷ ports) =
    record {
      i = i;
      port = port;
      attr = attr;
      mc = attr.bank / 4;
      noc_s_port =
          interface (codes "S") (count_if (is_on_mc (attr.bank / 4)) earlier) (codes "_AXI");
      noc_m_port = codes "MC_" ++ str_of (attr.bank % 4);
    }
    ∷ ddr_connections_after (suc i) ((port, attr) ∷ earlier) ports

-- The counts after one more port, and its own before it.
counts_one_more :
    (earlier : Dict MmapAttr) (port : Text) (attr : MmapAttr) (counted : List ℕ)
    → attr.bank < 12
    → update_at (mc_counts earlier) (attr.bank / 4) (λ n. ok (n + 1)) ≡ ok counted
    → (counted ≡ mc_counts ((port, attr) ∷ earlier))
      × (get_item (mc_counts earlier) (attr.bank / 4)
          ≡ ok (count_if (is_on_mc (attr.bank / 4)) earlier))
unfolding update_at
counts_one_more earlier port attr counted small e = by_mc (attr.bank / 4) refl (omega arith) e
  where
    by_mc :
        (mc : ℕ)
        → attr.bank / 4 ≡ mc
        → mc < 3
        → update_at (mc_counts earlier) mc (λ n. ok (n + 1)) ≡ ok counted
        → (counted ≡ mc_counts ((port, attr) ∷ earlier))
          × (get_item (mc_counts earlier) mc ≡ ok (count_if (is_on_mc mc) earlier))
    by_mc zero is_mc h e = (
      sym (ok_inj e)
          ∙ rw is_mc (ok_inj (three_eq _ _ _ _ _ _ (omega arith) (omega arith) (omega arith))),
      refl,
    )
    by_mc (suc zero) is_mc h e = (
      sym (ok_inj e)
          ∙ rw is_mc (ok_inj (three_eq _ _ _ _ _ _ (omega arith) (omega arith) (omega arith))),
      refl,
    )
    by_mc (suc (suc zero)) is_mc h e = (
      sym (ok_inj e)
          ∙ rw is_mc (ok_inj (three_eq _ _ _ _ _ _ (omega arith) (omega arith) (omega arith))),
      refl,
    )
    by_mc (suc (suc (suc k))) is_mc h e = absurd (omega (arith, h))

ddr_connections-named :
    (i : ℕ) (earlier : Dict MmapAttr) (counts : List ℕ) (ports : Dict MmapAttr)
    → All (λ (port, attr). attr.bank < 12) ports
    → count_mcs (mc_counts earlier) ports ≡ ok counts
    → ddr_connections i (mc_counts earlier) (named (mc_counts earlier)) ports
      ≡ ok (ddr_connections_after i earlier ports, named counts)
unfolding count_mcs ddr_connections
ddr_connections-named i earlier counts [] _ e = ap (λ l. ok ([], named l)) (ok_inj e)
ddr_connections-named i earlier counts ((port, attr) ∷ ports) (small, smalls) e =
    let (counted, made, e') =
      >>=-eq-ok (update_at (mc_counts earlier) (attr.bank / 4) (λ n. ok (n + 1))) _ e in
    let (n, found, appended) = one_more (mc_counts earlier) counted (attr.bank / 4) made in
    let (after, numbered) = counts_one_more earlier port attr counted small made in
    let same : n ≡ count_if (is_on_mc (attr.bank / 4)) earlier = ok_inj (sym found ∙ numbered) in
    let rest =
      ddr_connections-named (suc i) ((port, attr) ∷ earlier) counts ports smalls
        (subst (λ c. count_mcs c ports ≡ ok counts) after e') in
    rw
      (
        made,
        numbered,
        subst
            (λ k.
              update_at (named (mc_counts earlier)) (attr.bank / 4)
                (λ names. ok (names ++ ddr_si k ∷ []))
              ≡ ok (named counted))
            same appended,
        after,
        rest,
      )
      refl

-- When every bank is below 12, dut_ddr_mmap_tcl creates for each memory controller as many interfaces
-- as there are ports on it, and connects each port to the interface of its memory controller that is
-- numbered by the ports before it on that controller; the interfaces tied to the clock are those.
pub dut_ddr_mmap_tcl-interfaces :
    (ports : Dict MmapAttr)
    → All (λ (port, attr). attr.bank < 12) ports
    → dut_ddr_mmap_tcl ports
      ≡ ok (
          each_mc 0 (mc_counts ports)
          ++ map ddr_connect (ddr_connections_after 0 [] ports)
          ++ each_busif 0 (named (mc_counts ports))
          ++ codes "endgroup" ∷ [])
unfolding dut_ddr_mmap_tcl
dut_ddr_mmap_tcl-interfaces ports small =
    let counted =
      count_mcs-from 0 0 0 ports small
      ∙ three_eq _ _ _ _ _ _ (omega arith) (omega arith) (omega arith) in
    rw (counted, ddr_connections-named 0 [] (mc_counts ports) ports small counted) refl

-- A port on a bank from 12 on stops dut_ddr_mmap_tcl by an IndexError.
pub dut_ddr_mmap_tcl_refused :
    (ports : Dict MmapAttr) (port : Text) (attr : MmapAttr)
    → Memᴰ (port, attr) ports
    → 12 ≤ attr.bank
    → dut_ddr_mmap_tcl ports ≡ err index_error
unfolding dut_ddr_mmap_tcl
dut_ddr_mmap_tcl_refused ports port attr listed large =
    rw (count_mcs-large 0 0 0 ports port attr listed large) refl
