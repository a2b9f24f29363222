-- ===== src/Ir/Mmap.antt =====
-- parse_mmap_noc: the NoC nodes and the bandwidths of the memory-mapped ports. `float` is Python's
-- conversion of what the file gives as a bandwidth.
use rapidstream_noc.Common.{
  ℕ, ◌/◌, ◌%◌, [], ◌∷◌, ◌++◌, Option, none, some, Result, ok, Dict, set_item, ◌>>=◌,
}
use rapidstream_noc.Common.Text.{Text, codes, str_of}
use rapidstream_noc.Slots.{extract_slot_coord}
use rapidstream_noc.Device.{Ends}

module _ (Raw Float : Type 0) where
  -- The entry of one port of the file.
  pub record Attr : Type 0 where
    pub noc : Option Text
    pub bank : ℕ
    pub read_bw : Raw
    pub write_bw : Raw

  pub record MmapBw : Type 0 where
    pub read_bw : Float
    pub write_bw : Float

abbrev pub nmu_name : ℕ → ℕ → Text
nmu_name nmu_x nmu_y = codes "nmu_x" ++ (str_of nmu_x ++ (codes "y" ++ str_of nmu_y))

abbrev pub hbm_port_name : ℕ → Text
hbm_port_name mc_bank =
    codes "hbm_mc_x"
    ++ (str_of (mc_bank / 2) ++ (codes "y0_pc" ++ (str_of (mc_bank % 2) ++ codes "_port0")))

module _ {Raw Float : Type 0} (float : Raw → Result Float) where
  -- The loop over the ports.
  unfoldable pub mmap_rounds :
      Dict (Attr Raw Float)
      → Dict (Ends Text)
      → Dict (MmapBw Raw Float)
      → Result (Dict (Ends Text) × Dict (MmapBw Raw Float))
  unfolding set_item
  mmap_rounds [] mmap_noc mmap_bw = ok (mmap_noc, mmap_bw)
  mmap_rounds ((p, attr) ∷ mmap_ir) mmap_noc mmap_bw =
      let skipped = mmap_rounds mmap_ir mmap_noc mmap_bw in
      elim attr.noc [
        | none ↦ skipped
        | some noc ↦ (do
          (nmu_x, nmu_y) ← extract_slot_coord noc
          read_bw ← float attr.read_bw
          write_bw ← float attr.write_bw
          mmap_rounds mmap_ir
              (set_item p (record { src = nmu_name nmu_x nmu_y; dest = hbm_port_name attr.bank })
                mmap_noc)
              (set_item p (record { read_bw = read_bw; write_bw = write_bw }) mmap_bw))
      ]

  unfoldable pub parse_mmap_noc :
      Dict (Attr Raw Float) → Result (Dict (Ends Text) × Dict (MmapBw Raw Float))
  unfolding mmap_rounds
  parse_mmap_noc mmap_ir = mmap_rounds mmap_ir [] []
