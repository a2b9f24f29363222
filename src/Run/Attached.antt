-- ===== src/Run/Attached.antt =====
-- The selected streams reach the stream NoC of the block design without a width converter.
use mathlib.Core.List.{append_cancel_left, append_assoc, append-nil}
use rapidstream_noc.Common.{
  ℕ, suc, ◌+◌, ◌/◌, ◌*◌, ◌≤◌, ◌≡◌, ◌≢◌, refl, sym, ap, inl, inr, List, [], ◌∷◌, ◌++◌, none, some,
  true, Bool-cases, All, Returns, Dict, lookup, set_item, item, ok, map, arith,
}
use rapidstream_noc.Common.Text.{Text, codes, str_of, text_eq}
use rapidstream_noc.Common.Text.Equality.{text_eq_ne}
use rapidstream_noc.Common.Text.Decimal.{int_of-str_of}
use rapidstream_noc.Width.{frequency, valid_tdata_num_bytes, is_valid}
use rapidstream_noc.Width.Bounds.{IsSupported, round_up_to_noc_tdata_bits}
use rapidstream_noc.Bd.Stream.{
  StreamAttr, stream_connection, direct, attach, each_stream, create_stream_noc, dut_stream_noc_tcl,
}
use rapidstream_noc.Bd.HbmApart.{Distinct}
use rapidstream_noc.Run.Outputs.{
  streams_bw_of, keys, m_axis, s_axis, selected_attrs, noc_stream_attr, returning_attrs,
}

-- A width that the NoC supports.
abbrev Fits : StreamAttr → Type 0
Fits attr = (v : ℕ) × (attr.width ≡ str_of v) × IsSupported ((v + 7) / 8)

-- The commands that connect streams, from the number of the next one, without a converter.
abbrev pub direct_commands : ℕ → Dict StreamAttr → List Text
direct_commands i [] = []
direct_commands i ((src, attr) ∷ streams) =
    stream_connection i attr.bandwidth ∷ direct i src attr.dest ∷ direct_commands (suc i) streams

attach-Fits :
    (i : ℕ) (src : Text) (attr : StreamAttr)
    → Fits attr
    → attach i src attr ≡ ok (direct i src attr.dest)
unfolding attach
attach-Fits i src attr (v, is_width, supported) =
    let valid : is_valid valid_tdata_num_bytes ((v + 7) / 8) ≡ true = ground (arith, supported) in
    rw (is_width, int_of-str_of v, valid) refl

each_stream-direct :
    (i : ℕ) (attrs : Dict StreamAttr)
    → All (λ (src, attr). Fits attr) attrs
    → each_stream i attrs ≡ ok (direct_commands i attrs)
unfolding each_stream
each_stream-direct i [] _ = refl
each_stream-direct i ((src, attr) ∷ streams) (fits, all_fit) =
    rw (attach-Fits i src attr fits, each_stream-direct (suc i) streams all_fit) refl

-- A new key is written at the end.
set_item-fresh {ℓ} :
    {V : Type ℓ} (key : Text) (v : V) (d : Dict V)
    → lookup key d ≡ none
    → set_item key v d ≡ d ++ (key, v) ∷ []
unfolding set_item lookup
set_item-fresh key v [] h = refl
set_item-fresh key v ((k, w) ∷ d) h = elim (Bool-cases (text_eq key k)) [
  | inl e ↦ absurd (ground (arith, e, h))
  | inr e ↦ rw e (ap (λ rest. (k, w) ∷ rest) (set_item-fresh key v d (rw e at h)))
]

lookup-append-none {ℓ} :
    {V : Type ℓ} (key k : Text) (v : V) (d : Dict V)
    → lookup key d ≡ none
    → key ≢ k
    → lookup key (d ++ (k, v) ∷ []) ≡ none
unfolding lookup
lookup-append-none key k v [] h differ = rw (text_eq_ne key k differ) refl
lookup-append-none key k v ((j, w) ∷ d) h differ = elim (Bool-cases (text_eq key j)) [
  | inl e ↦ absurd (ground (arith, e, h))
  | inr e ↦ rw e (lookup-append-none key k v d (rw e at h) differ)
]

item-ok {ℓ} :
    {V : Type ℓ} (key : Text) (d : Dict V) {v : V} → lookup key d ≡ some v → item key d ≡ ok v
item-ok key d e = rw (item, e) refl

lookup-streams_bw :
    (s : Text) (widths : Dict ℕ) (w : ℕ)
    → lookup s widths ≡ some w
    → lookup s (streams_bw_of widths) ≡ some (w * frequency / 8)
unfolding lookup
lookup-streams_bw s [] w h = cc
lookup-streams_bw s ((k, v) ∷ widths) w h = elim (Bool-cases (text_eq s k)) [
  | inl e ↦ rw e (ap (λ o. elim o [ none ↦ none | some n ↦ some (n * frequency / 8) ]) (rw e at h))
  | inr e ↦ rw e (lookup-streams_bw s widths w (rw e at h))
]

All-both {ℓ κ μ ν} :
    {A : Type ℓ} {P : A → Type κ} {Q : A → Type μ} {R : A → Type ν}
    → ((a : A) → P a → Q a → R a)
    → (xs : List A) → All P xs
    → All Q xs
    → All R xs
All-both both [] _ _ = tt
All-both both (x ∷ xs) (p, ps) (q, qs) = (both x p q, All-both both xs ps qs)

-- A stream whose width is found and at most 512 bits.
abbrev IsNarrow : Dict ℕ → Text → Type 0
IsNarrow widths s = (w : ℕ) × (lookup s widths ≡ some w) × (w ≤ 512)

selected_attrs-new :
    (names : List Text) (widths : Dict ℕ) (acc : Dict StreamAttr)
    → Distinct names
    → All (IsNarrow widths) names
    → All (λ s. lookup (m_axis s) acc ≡ none) names
    → (new : Dict StreamAttr) × (selected_attrs names widths acc ≡ ok (acc ++ new))
      × (keys new ≡ map m_axis names)
      × All (λ (src, attr). Fits attr) new
unfolding selected_attrs
selected_attrs-new [] widths acc _ _ _ = ([], ap ok (sym (append-nil acc)), refl, tt)
selected_attrs-new (s ∷ names) widths acc (differ, distinct) ((w, found, narrow), narrows)
      (fresh, all_fresh) =
    let (v, rounded, more, supported) = round_up_to_noc_tdata_bits w narrow in
    let attr : StreamAttr = record {
      dest = s_axis s;
      bandwidth = w * frequency / 8;
      width = str_of v;
    } in
    let later =
      All-both
        (λ t differs free.
          lookup-append-none (m_axis t) (m_axis s) attr acc free
            (λ e. differs (sym (append_cancel_left (codes "m_axis_") t s e))))
        names differ all_fresh in
    let (new, made, named, fit) =
      selected_attrs-new names widths (acc ++ (m_axis s, attr) ∷ []) distinct narrows later in
    (
      (m_axis s, attr) ∷ new,
      rw
          (
            item-ok s _ (lookup-streams_bw s widths w found),
            item-ok s widths found,
            rounded,
            set_item-fresh (m_axis s) attr acc fresh,
            made,
          )
          (ap ok (append_assoc acc ((m_axis s, attr) ∷ []) new)),
      ap (λ ks. m_axis s ∷ ks) named,
      ((v, refl, supported), fit),
    )

nones : (names : List Text) → All (λ s. lookup {V = StreamAttr} (m_axis s) [] ≡ none) names
unfolding lookup
nones [] = tt
nones (s ∷ names) = (refl, nones names)

-- For different streams whose widths are found and at most 512 bits, the attributes of the streams are
-- made in the order of the streams, and dut_stream_noc_tcl connects each to its own pair of ports of the
-- NoC without a width converter.
pub selected-direct :
    (names : List Text) (widths : Dict ℕ)
    → Distinct names
    → All (λ s. (w : ℕ) × (lookup s widths ≡ some w) × (w ≤ 512)) names
    → Returns
        (λ attrs.
          (keys attrs ≡ map m_axis names)
          × (dut_stream_noc_tcl attrs
              ≡ ok (create_stream_noc attrs ∷ direct_commands 0 attrs ++ codes "endgroup" ∷ [])))
        (noc_stream_attr names widths [])
unfolding noc_stream_attr dut_stream_noc_tcl returning_attrs
selected-direct names widths distinct narrow =
    let (new, made, named, fit) =
      selected_attrs-new names widths [] distinct narrow (nones names) in
    (new, rw made refl, (named, rw (each_stream-direct 0 new fit) refl))
