-- ===== src/Ir/Opened.antt =====
-- The ports and the streams that credit_ret_over_noc makes for the pairs of slots.
use mathlib.Core.List.{append_assoc, append-nil}
use rapidstream_noc.Common.{
  ℕ, ◌+◌, ◌*◌, ◌/◌, ◌≡◌, ◌∙◌, refl, ap, sym, List, [], ◌∷◌, ◌++◌, Option, none, some, Result, ok,
  err, Returns, All, lookup, set_item, Bool, true, false, lookup-set_item, length, if◌then◌else◌,
}
use rapidstream_noc.Common.Text.{Text, text_eq, codes, int_of, str_of}
use rapidstream_noc.Common.Text.Decimal.{int_of-str_of}
use rapidstream_noc.Ir.{
  Port, create_port_ir, create_m_axis_ports, create_s_axis_ports, create_module_inst_ir, str_below,
}
use rapidstream_noc.Ir.Update.{bit_length}
use rapidstream_noc.Ir.Group.{Groups, SrcDest, merged_name_of}
use rapidstream_noc.Ir.OverNoc.{OverNoc, NocStream, over_noc_rounds}
use rapidstream_noc.Ir.Ends.{over, over-over}

-- The whole bytes of the credits of some FIFOs together, in bits.
abbrev pub ret_bits : ℕ → ℕ → ℕ
ret_bits credit fifos = (bit_length credit * fifos + 7) / 8 * 8

-- An AXI stream that leaves, and one that enters, for the credits of a pair of slots.
abbrev pub pair_ports : Text → ℕ → List Port
pair_ports name bits =
    create_port_ir (codes "m_axis_" ++ ((name ++ codes "_cc_ret") ++ codes "_tdata"))
      (codes "output wire") (str_below bits) (codes "0")
    ∷ create_port_ir (codes "m_axis_" ++ ((name ++ codes "_cc_ret") ++ codes "_tvalid"))
        (codes "output wire") (codes "0") (codes "0")
    ∷ create_port_ir (codes "m_axis_" ++ ((name ++ codes "_cc_ret") ++ codes "_tready"))
        (codes "input wire") (codes "0") (codes "0")
    ∷ create_port_ir (codes "m_axis_" ++ ((name ++ codes "_cc_ret") ++ codes "_tlast"))
        (codes "output wire") (codes "0") (codes "0")
    ∷ create_port_ir (codes "s_axis_" ++ ((name ++ codes "_cc_ret") ++ codes "_tdata"))
        (codes "input wire") (str_below bits) (codes "0")
    ∷ create_port_ir (codes "s_axis_" ++ ((name ++ codes "_cc_ret") ++ codes "_tvalid"))
        (codes "input wire") (codes "0") (codes "0")
    ∷ create_port_ir (codes "s_axis_" ++ ((name ++ codes "_cc_ret") ++ codes "_tready"))
        (codes "output wire") (codes "0") (codes "0")
    ∷ create_port_ir (codes "s_axis_" ++ ((name ++ codes "_cc_ret") ++ codes "_tlast"))
        (codes "input wire") (codes "0") (codes "0")
    ∷ []

-- What is made of a name that can be read.
abbrev pub if_named_ok {ℓ} : {A : Type ℓ} → A → (Text → A) → Result Text → A
if_named_ok a f (ok name) = f name
if_named_ok a f (err _) = a

-- The ports of all the pairs, in their order.
abbrev pub ports_of_pairs : ℕ → Groups → List Port
ports_of_pairs credit [] = []
ports_of_pairs credit ((srcdest, fifos) ∷ groups) =
    if_named_ok [] (λ name. pair_ports name (ret_bits credit (length fifos)))
      (merged_name_of srcdest)
    ++ ports_of_pairs credit groups

-- The stream of a pair, for the credits that go from its source to its destination.
abbrev pub pair_stream : ℕ → SrcDest → List Text → NocStream
pair_stream credit (from, to) fifos = record {
  src = from;
  dest = to;
  width = str_of (ret_bits credit (length fifos));
  bandwidth = ret_bits credit (length fifos) * 1000 / 8;
}

-- The stream of the last pair of a name.
abbrev pub stream_of_pairs : ℕ → Text → Groups → Option NocStream
stream_of_pairs credit key [] = none
stream_of_pairs credit key ((srcdest, fifos) ∷ groups) = over (stream_of_pairs credit key groups) (
    if_named_ok none
      (λ name.
        if text_eq key (name ++ codes "_cc_ret")
        then some (pair_stream credit srcdest fifos)
        else none)
      (merged_name_of srcdest))

-- The names of both slots of every pair can be read.
abbrev pub AreNamed : Groups → Type 0
AreNamed groups = All (λ (srcdest, fifos). Returns (λ _. Unit {0}) (merged_name_of srcdest)) groups

-- The loop adds the ports and the streams of the pairs.
pub record Opens (credit : ℕ) (groups : Groups) (key : Text) (o q : OverNoc) : Type 0 where
  pub ports_opened : q.ports ≡ o.ports ++ ports_of_pairs credit groups
  pub streams_opened :
      lookup key q.streams ≡ over (stream_of_pairs credit key groups) (lookup key o.streams)

over_if {ℓ} :
    {A : Type ℓ} (b : Bool) (a : A) (before : Option A)
    → (if b then some a else before) ≡ over (if b then some a else none) before
over_if true a before = refl
over_if false a before = refl

pub over_noc_rounds-Opens :
    (init_credit : Text) (credit : ℕ) (groups : Groups) (key : Text) (o : OverNoc)
    → int_of init_credit ≡ ok credit
    → AreNamed groups
    → Returns (Opens credit groups key o) (over_noc_rounds init_credit groups o)
unfolding over_noc_rounds create_m_axis_ports create_s_axis_ports
over_noc_rounds-Opens init_credit credit [] key o read _ =
    (o, refl, record { ports_opened = sym (append-nil o.ports); streams_opened = refl })
over_noc_rounds-Opens init_credit credit ((srcdest, fifos) ∷ groups) key o read
      ((name, named, _), names) =
    let bits = ret_bits credit (length fifos) in
    let driver =
      create_module_inst_ir
        (record {
          module_name = codes "Const_1_Driver";
          inst_name = name ++ codes "_cc_ret_tlast_inst";
          floorplan_region = none;
          pragmas = none;
        })
        [] ((codes "out", (codes "m_axis_" ++ (name ++ codes "_cc_ret_tlast")) ∷ []) ∷ []) [] in
    let stream = pair_stream credit srcdest fifos in
    let next : OverNoc = record {
      ports = o.ports ++ pair_ports name bits;
      drivers = o.drivers ++ driver ∷ [];
      streams = set_item (name ++ codes "_cc_ret") stream o.streams;
    } in
    let (q, made, opens) = over_noc_rounds-Opens init_credit credit groups key next read names in
    (
      q,
      rw (named, read, int_of-str_of bits, made) refl,
      record {
        ports_opened =
            opens.ports_opened
            ∙ append_assoc o.ports (pair_ports name bits) (ports_of_pairs credit groups)
            ∙ rw named refl;
        streams_opened =
            opens.streams_opened
            ∙ ap (over (stream_of_pairs credit key groups)) (
                lookup-set_item key (name ++ codes "_cc_ret") stream o.streams
                ∙ over_if (text_eq key (name ++ codes "_cc_ret")) stream (lookup key o.streams))
            ∙ over-over (stream_of_pairs credit key groups) _ (lookup key o.streams)
            ∙ rw named refl;
      },
    )
