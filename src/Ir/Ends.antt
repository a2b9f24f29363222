-- ===== src/Ir/Ends.antt =====
-- What the loop of parse_inter_slot reads under each name.
use mathlib.Core.Path.{subst}
use rapidstream_noc.Common.{
  ◌≡◌, ◌≢◌, ◌∙◌, refl, ap, Bool, true, false, List, [], ◌∷◌, ◌++◌, Option, none, some, Result, ok,
  err, lookup, set_item, lookup-set_item, Bool-cases, inl, inr, pred, >>=-eq-ok, ℤ, ok_inj,
  if◌then◌else◌,
}
use rapidstream_noc.Common.Text.{Text, text_eq, codes}
use rapidstream_noc.Common.Text.Equality.{ne_of_clash}
use rapidstream_noc.Common.Text.Edit.{ends_with, remove_suffix, strip_quotes}
use rapidstream_noc.Common.Text.Suffix.{text_eq-remove_suffix, no_suffix, one_suffix}
use rapidstream_noc.Ir.{Inst, find_expr, find_repr}
use rapidstream_noc.Ir.Parse.{
  Pipelines, joined, region_of, inter_slot_round, inter_slot_rounds, eval_id_expr,
}

-- What a later reading leaves of an earlier one.
abbrev pub over {ℓ} : {A : Type ℓ} → Option A → Option A → Option A
over none before = before
over (some a) before = some a

-- A value of a submodule that has a name.
abbrev pub if_named {ℓ} : {A : Type ℓ} → (Inst → Option A) → Text → Inst → Option A
if_named value name m = if text_eq m.name name then value m else none

-- The value of the last submodule of a name that has one.
abbrev pub last_named {ℓ} : {A : Type ℓ} → (Inst → Option A) → Text → List Inst → Option A
last_named value name [] = none
last_named value name (m ∷ ms) = over (last_named value name ms) (if_named value name m)

-- The parameter `__REGION` of a submodule, without its quotes.
abbrev pub region_in : Inst → Option Text
region_in m = some (strip_quotes (find_repr m.parameters (codes "__REGION")))

abbrev less_one : Result ℤ → Option ℤ
less_one (ok width) = some (pred width)
less_one (err _) = none

-- The value of the parameter `DATA_WIDTH` of a submodule, less one.
abbrev pub width_in : (Text → Result ℤ) → Inst → Option ℤ
width_in evaluate m = less_one (evaluate (joined (find_expr m.parameters (codes "DATA_WIDTH"))))

pub over-none {ℓ} : {A : Type ℓ} (later : Option A) → over later none ≡ later
over-none none = refl
over-none (some a) = refl

pub over-over {ℓ} :
    {A : Type ℓ} (later now before : Option A)
    → over later (over now before) ≡ over (over later now) before
over-over none now before = refl
over-over (some a) now before = refl

-- What a reading of submodules adds to the three dictionaries, under one name.
pub record Reads (src dest : Option Text) (widths : Option ℤ) (name : Text) (p q : Pipelines)
    : Type 0 where
  pub src_read : lookup name q.src ≡ over src (lookup name p.src)
  pub dest_read : lookup name q.dest ≡ over dest (lookup name p.dest)
  pub widths_read : lookup name q.widths ≡ over widths (lookup name p.widths)

over_if {ℓ} :
    {A : Type ℓ} (b : Bool) (value : Option A) (a : A) (before : Option A)
    → value ≡ some a
    → (if b then some a else before) ≡ over (if b then value else none) before
over_if true value a before is_a = rw is_a refl
over_if false value a before is_a = refl

-- Written under the name that a suffix leaves, a value is found under the name with the suffix.
set-named {ℓ} :
    {A : Type ℓ} (m : Inst) (suffix name : Text) (value : Inst → Option A) (a : A)
    (d : List (Text × A))
    → ends_with m.name suffix ≡ true
    → value m ≡ some a
    → lookup name (set_item (remove_suffix m.name suffix) a d)
      ≡ over (if_named value (name ++ suffix) m) (lookup name d)
set-named m suffix name value a d e is_a =
    lookup-set_item name (remove_suffix m.name suffix) a d
    ∙ ap (λ b. if b then some a else lookup name d) (text_eq-remove_suffix m.name suffix name e)
    ∙ over_if (text_eq m.name (name ++ suffix)) (value m) a (lookup name d) is_a

not-named {ℓ} :
    {A : Type ℓ} (m : Inst) (name : Text) (value : Inst → Option A) (before : Option A)
    → text_eq m.name name ≡ false
    → before ≡ over (if_named value name m) before
not-named m name value before e = rw e refl

suffixes_differ : codes "_PP_HEAD" ≢ codes "_PP_TAIL"
suffixes_differ = ne_of_clash _ _ refl

-- What one submodule adds.
abbrev OneReads : (Text → Result ℤ) → Inst → Text → Pipelines → Pipelines → Type 0
OneReads evaluate m name p q =
    Reads (if_named region_in (name ++ codes "_PP_HEAD") m)
      (if_named region_in (name ++ codes "_PP_TAIL") m)
      (if_named (width_in evaluate) (name ++ codes "_PP_HEAD") m) name p q

module _ (evaluate : Text → Result ℤ) where
  inter_slot_round-Reads :
      (m : Inst) (p q : Pipelines) (name : Text)
      → inter_slot_round evaluate m p ≡ ok q
      → OneReads evaluate m name p q
  unfolding inter_slot_round eval_id_expr
  inter_slot_round-Reads m p q name e = elim (Bool-cases (ends_with m.name (codes "_PP_HEAD"))) [
    | inl h ↦
        (let (width, read, done) =
            >>=-eq-ok (eval_id_expr evaluate (find_expr m.parameters (codes "DATA_WIDTH")))
              (λ width. ok (record {
                src = set_item (remove_suffix m.name (codes "_PP_HEAD")) (region_of m) p.src;
                dest = p.dest;
                widths = set_item (remove_suffix m.name (codes "_PP_HEAD")) (pred width) p.widths;
              }))
              (rw h at e) in
          subst (OneReads evaluate m name p) (ok_inj done) (record {
            src_read = set-named m (codes "_PP_HEAD") name region_in (region_of m) p.src h refl;
            dest_read = not-named m (name ++ codes "_PP_TAIL") region_in (lookup name p.dest) (
                one_suffix m.name (codes "_PP_HEAD") (codes "_PP_TAIL") name refl suffixes_differ
                  h);
            widths_read =
                set-named m (codes "_PP_HEAD") name (width_in evaluate) (pred width) p.widths h
                  (ap less_one read);
          }))
    | inr h ↦
        (let no_head = no_suffix m.name (codes "_PP_HEAD") name h in
          let no_src =
            not-named m (name ++ codes "_PP_HEAD") region_in (lookup name p.src) no_head in
          let no_width =
            not-named m (name ++ codes "_PP_HEAD") (width_in evaluate) (lookup name p.widths)
              no_head in
          elim (Bool-cases (ends_with m.name (codes "_PP_TAIL"))) [
            | inl t ↦
                (let done : ok (record {
                  src = p.src;
                  dest = set_item (remove_suffix m.name (codes "_PP_TAIL")) (region_of m) p.dest;
                  widths = p.widths;
                })
                      ≡ ok q =
                    rw (h, t) at e in
                  subst (OneReads evaluate m name p) (ok_inj done) (record {
                    src_read = no_src;
                    dest_read =
                        set-named m (codes "_PP_TAIL") name region_in (region_of m) p.dest t refl;
                    widths_read = no_width;
                  }))
            | inr t ↦
                (let done : ok p ≡ ok q = rw (h, t) at e in
                  subst (OneReads evaluate m name p) (ok_inj done) (record {
                    src_read = no_src;
                    dest_read =
                        not-named m (name ++ codes "_PP_TAIL") region_in (lookup name p.dest)
                          (no_suffix m.name (codes "_PP_TAIL") name t);
                    widths_read = no_width;
                  }))
          ])
  ]

  pub inter_slot_rounds-Reads :
      (submodules : List Inst) (p q : Pipelines) (name : Text)
      → inter_slot_rounds evaluate submodules p ≡ ok q
      → Reads
          (last_named region_in (name ++ codes "_PP_HEAD") submodules)
          (last_named region_in (name ++ codes "_PP_TAIL") submodules)
          (last_named (width_in evaluate) (name ++ codes "_PP_HEAD") submodules)
          name
          p
          q
  unfolding inter_slot_rounds
  inter_slot_rounds-Reads [] p q name e =
      subst (Reads none none none name p) (ok_inj e)
        (record { src_read = refl; dest_read = refl; widths_read = refl })
  inter_slot_rounds-Reads (m ∷ submodules) p q name e =
      let (r, one, rest) =
        >>=-eq-ok (inter_slot_round evaluate m p) (λ q. inter_slot_rounds evaluate submodules q)
          e in
      let now = inter_slot_round-Reads m p r name one in
      let later = inter_slot_rounds-Reads submodules r q name rest in
      record {
        src_read =
            later.src_read
            ∙ ap (over (last_named region_in (name ++ codes "_PP_HEAD") submodules)) now.src_read
            ∙ over-over (last_named region_in (name ++ codes "_PP_HEAD") submodules) _
                (lookup name p.src);
        dest_read =
            later.dest_read
            ∙ ap (over (last_named region_in (name ++ codes "_PP_TAIL") submodules)) now.dest_read
            ∙ over-over (last_named region_in (name ++ codes "_PP_TAIL") submodules) _
                (lookup name p.dest);
        widths_read =
            later.widths_read
            ∙ ap (over (last_named (width_in evaluate) (name ++ codes "_PP_HEAD") submodules))
                now.widths_read
            ∙ over-over (last_named (width_in evaluate) (name ++ codes "_PP_HEAD") submodules) _
                (lookup name p.widths);
      }
