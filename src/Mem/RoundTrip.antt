-- ===== src/Mem/RoundTrip.antt =====
-- Reading what bin_to_hbm_mem writes gives the addresses and the bytes back.
use mathlib.Core.Path.{subst}
use mathlib.Core.List.{append_assoc, append-nil}
use rapidstream_noc.Common.{
  ℕ, zero, suc, ◌+◌, ◌*◌, ◌/◌, ◌%◌, ◌≤◌, ◌<◌, ◌≡◌, ◌≢◌, refl, sym, ap, ◌∙◌, List, [], ◌∷◌, ◌++◌,
  map, All, arith, length, take, false, ◌||◌, All-append_inv, Returns, Result, ok, Dict, ◌==◌,
}
use rapidstream_noc.Common.Text.{Text, codes}
use rapidstream_noc.Common.Text.Edit.{drop}
use rapidstream_noc.Tcl.{join}
use rapidstream_noc.Mem.{hex_digit, hex2, chunks, hex_lines, mem_block, bin_to_hbm_mem}
use rapidstream_noc.Mem.Reader.{
  State, outside, in_address, in_bytes, in_byte, digit_of, next, read_mem,
}

digit_of-hex_digit : (d : ℕ) → d < 16 → digit_of (hex_digit d) ≡ d
digit_of-hex_digit d h = ground arith

not_at : (d : ℕ) → d < 16 → (hex_digit d == b'@') ≡ false
not_at d h = ground arith

not_blank : (d : ℕ) → d < 16 → ((hex_digit d == b' ') || (hex_digit d == 10)) ≡ false
not_blank d h = ground arith

read-next :
    (s : State) (c : ℕ) (t : Text)
    → (c == b'@') ≡ false
    → read_mem s (c ∷ t) ≡ read_mem (next s c) t
unfolding read_mem
read-next s c t h = rw h refl

next-high :
    (address : Text) (bytes : List ℕ) (d : ℕ)
    → d < 16
    → next (in_bytes address bytes) (hex_digit d) ≡ in_byte address bytes d
unfolding next
next-high address bytes d h =
    rw (not_at d h, not_blank d h) (ap (in_byte address bytes) (digit_of-hex_digit d h))

next-low :
    (address : Text) (bytes : List ℕ) (high d : ℕ)
    → d < 16
    → next (in_byte address bytes high) (hex_digit d)
      ≡ in_bytes address (bytes ++ (high * 16 + d) ∷ [])
unfolding next
next-low address bytes high d h =
    ap (λ k. in_bytes address (bytes ++ (high * 16 + k) ∷ [])) (digit_of-hex_digit d h)

-- A byte is read.
read-hex2 :
    (address : Text) (bytes : List ℕ) (x : ℕ) (t : Text)
    → x < 256
    → read_mem (in_bytes address bytes) (hex2 x ++ t)
      ≡ read_mem (in_bytes address (bytes ++ x ∷ [])) t
unfolding hex2
read-hex2 address bytes x t small =
    read-next (in_bytes address bytes) (hex_digit (x / 16)) (hex_digit (x % 16) ∷ t)
      (not_at (x / 16) (omega arith))
    ∙ ap (λ s. read_mem s (hex_digit (x % 16) ∷ t)) (next-high address bytes (x / 16) (omega arith))
    ∙ read-next (in_byte address bytes (x / 16)) (hex_digit (x % 16)) t
        (not_at (x % 16) (omega arith))
    ∙ ap (λ s. read_mem s t) (next-low address bytes (x / 16) (x % 16) (omega arith))
    ∙ ap (λ k. read_mem (in_bytes address (bytes ++ k ∷ [])) t) (omega arith)

-- A blank or a line end between bytes is passed over.
read-blank :
    (address : Text) (bytes : List ℕ) (t : Text)
    → read_mem (in_bytes address bytes) (b' ' ∷ t) ≡ read_mem (in_bytes address bytes) t
unfolding read_mem next
read-blank address bytes t = refl

read-end :
    (address : Text) (bytes : List ℕ) (t : Text)
    → read_mem (in_bytes address bytes) (10 ∷ t) ≡ read_mem (in_bytes address bytes) t
unfolding read_mem next
read-end address bytes t = refl

read-line :
    (address : Text) (bytes chunk : List ℕ) (t : Text)
    → All (λ x. x < 256) chunk
    → read_mem (in_bytes address bytes) (join (codes " ") (map hex2 chunk) ++ 10 ∷ t)
      ≡ read_mem (in_bytes address (bytes ++ chunk)) t
read-line address bytes [] t _ =
    read-end address bytes t ∙ ap (λ bs. read_mem (in_bytes address bs) t) (sym (append-nil bytes))
read-line address bytes (x ∷ []) t (small, _) =
    read-hex2 address bytes x (10 ∷ t) small ∙ read-end address (bytes ++ x ∷ []) t
read-line address bytes (x ∷ y ∷ chunk) t (small, smalls) =
    ap (read_mem (in_bytes address bytes))
      (append_assoc (hex2 x) (b' ' ∷ join (codes " ") (map hex2 (y ∷ chunk))) (10 ∷ t))
    ∙ read-hex2 address bytes x (b' ' ∷ join (codes " ") (map hex2 (y ∷ chunk)) ++ 10 ∷ t) small
    ∙ read-blank address (bytes ++ x ∷ []) (join (codes " ") (map hex2 (y ∷ chunk)) ++ 10 ∷ t)
    ∙ read-line address (bytes ++ x ∷ []) (y ∷ chunk) t smalls
    ∙ ap (λ bs. read_mem (in_bytes address bs) t) (append_assoc bytes (x ∷ []) (y ∷ chunk))

-- The bytes of lines.
abbrev joined : List (List ℕ) → List ℕ
joined [] = []
joined (chunk ∷ rest) = chunk ++ joined rest

read-lines :
    (address : Text) (bytes : List ℕ) (cs : List (List ℕ)) (t : Text)
    → All (λ x. x < 256) (joined cs)
    → read_mem (in_bytes address bytes) (hex_lines cs ++ t)
      ≡ read_mem (in_bytes address (bytes ++ joined cs)) t
read-lines address bytes [] t _ =
    ap (λ bs. read_mem (in_bytes address bs) t) (sym (append-nil bytes))
read-lines address bytes (chunk ∷ rest) t small =
    let (first, others) = All-append_inv (λ x. x < 256) chunk (joined rest) small in
    let line = join (codes " ") (map hex2 chunk) in
    ap (read_mem (in_bytes address bytes)) (
      append_assoc (line ++ codes "\n") (hex_lines rest) t
      ∙ append_assoc line (codes "\n") (hex_lines rest ++ t))
    ∙ read-line address bytes chunk (hex_lines rest ++ t) first
    ∙ read-lines address (bytes ++ chunk) rest t others
    ∙ ap (λ bs. read_mem (in_bytes address bs) t) (append_assoc bytes chunk (joined rest))

take-drop : (n : ℕ) (bytes : List ℕ) → take n bytes ++ drop n bytes ≡ bytes
take-drop zero bytes = refl
take-drop (suc n) [] = refl
take-drop (suc n) (b ∷ bytes) = ap (λ bs. b ∷ bs) (take-drop n bytes)

length-drop : (n : ℕ) (bytes : List ℕ) → length (drop n bytes) ≤ length bytes
length-drop zero bytes = omega arith
length-drop (suc n) [] = omega arith
length-drop (suc n) (b ∷ bytes) = omega (arith, length-drop n bytes)

-- On fuel of at least the number of bytes, the chunks are all the bytes.
joined-chunks : (f : ℕ) (bytes : List ℕ) → length bytes ≤ f → joined (chunks f bytes) ≡ bytes
unfolding chunks
joined-chunks zero [] h = refl
joined-chunks zero (b ∷ bytes) h = absurd (omega arith)
joined-chunks (suc f) [] h = refl
joined-chunks (suc f) (b ∷ bytes) h =
    ap (λ bs. take 32 (b ∷ bytes) ++ bs)
      (joined-chunks f (drop 32 (b ∷ bytes)) (omega (arith, length-drop 31 bytes)))
    ∙ take-drop 32 (b ∷ bytes)

read-address :
    (part address t : Text)
    → All (λ c. (c ≢ 10) × (c ≢ b'@')) address
    → read_mem (in_address part) (address ++ 10 ∷ t) ≡ read_mem (in_bytes (part ++ address) []) t
unfolding read_mem next
read-address part [] t _ = ap (λ a. read_mem (in_bytes a []) t) (sym (append-nil part))
read-address part (c ∷ address) t ((no_end, no_at), plain) =
    let at_ : (c == b'@') ≡ false = ground (arith, no_at) in
    let end_ : (c == 10) ≡ false = ground (arith, no_end) in
    rw (at_, end_)
      (read-address (part ++ c ∷ []) address t plain
        ∙ ap (λ a. read_mem (in_bytes a []) t) (append_assoc part (c ∷ []) address))

module _ (data_of : Text → List ℕ) where
  -- What is written for files whose bytes are known.
  abbrev mem_text : Dict Text → Text
  mem_text [] = []
  mem_text ((f, address) ∷ bin_dict) = mem_block address (data_of f) ++ mem_text bin_dict

  -- A file with bytes, after a plain address.
  abbrev Plain : Text × Text → Type 0
  Plain (f, address) = All (λ x. x < 256) (data_of f) × All (λ c. (c ≢ 10) × (c ≢ b'@')) address

  read-block :
      (f address rest : Text)
      → Plain (f, address)
      → read_mem (in_address []) (
          address
          ++ (codes "\n" ++ (hex_lines (chunks (length (data_of f)) (data_of f)) ++ codes "\n"))
          ++ rest)
        ≡ read_mem (in_bytes address (data_of f)) rest
  read-block f address rest (small, plain) =
      let cs = chunks (length (data_of f)) (data_of f) in
      let whole = joined-chunks (length (data_of f)) (data_of f) (omega arith) in
      let ends = hex_lines cs ++ codes "\n" in
      ap (read_mem (in_address [])) (append_assoc address (codes "\n" ++ ends) rest)
      ∙ read-address [] address (ends ++ rest) plain
      ∙ ap (read_mem (in_bytes address [])) (append_assoc (hex_lines cs) (codes "\n") rest)
      ∙ read-lines address [] cs (codes "\n" ++ rest) (subst (All (λ x. x < 256)) (sym whole) small)
      ∙ read-end address (joined cs) rest
      ∙ ap (λ bs. read_mem (in_bytes address bs) rest) whole

  read-blocks :
      (address : Text) (bytes : List ℕ) (bin_dict : Dict Text)
      → All Plain bin_dict
      → read_mem (in_bytes address bytes) (mem_text bin_dict)
        ≡ (address, bytes) ∷ map (λ (f, a). (a, data_of f)) bin_dict
  unfolding read_mem next mem_block
  read-blocks address bytes [] _ = refl
  read-blocks address bytes ((f, a) ∷ bin_dict) (plain, plains) =
      ap (λ bs. (address, bytes) ∷ bs)
        (read-block f a (mem_text bin_dict) plain ∙ read-blocks a (data_of f) bin_dict plains)

  written :
      (open_binary : Text → Result (List ℕ)) (bin_dir : Text) (d : Dict Text)
      → All (λ (f, address). open_binary (bin_dir ++ f) ≡ ok (data_of f)) d
      → bin_to_hbm_mem open_binary bin_dir d ≡ ok (mem_text d)
  unfolding bin_to_hbm_mem
  written open_binary bin_dir [] _ = refl
  written open_binary bin_dir ((f, a) ∷ d) (e, es) = rw (e, written open_binary bin_dir d es) refl

  read_all :
      (d : Dict Text)
      → All Plain d
      → read_mem outside (mem_text d) ≡ map (λ (f, a). (a, data_of f)) d
  unfolding read_mem next mem_block
  read_all [] _ = refl
  read_all ((f, a) ∷ d) (plain', plains) =
      read-block f a (mem_text d) plain' ∙ read-blocks a (data_of f) d plains

  -- When the files can be read, their contents are bytes, and the addresses hold no `@` and no line end,
  -- bin_to_hbm_mem returns a text in which a reader of addresses and hexadecimal bytes finds, in order, the
  -- address of each file with the bytes of the file.
  pub read_mem-bin_to_hbm_mem :
      (open_binary : Text → Result (List ℕ)) (bin_dir : Text) (bin_dict : Dict Text)
      → All (λ (f, address). open_binary (bin_dir ++ f) ≡ ok (data_of f)) bin_dict
      → All
          (λ (f, address).
            All (λ x. x < 256) (data_of f) × All (λ c. (c ≢ 10) × (c ≢ b'@')) address)
          bin_dict
      → Returns
          (λ t. read_mem outside t ≡ map (λ (f, address). (address, data_of f)) bin_dict)
          (bin_to_hbm_mem open_binary bin_dir bin_dict)
  read_mem-bin_to_hbm_mem open_binary bin_dir bin_dict opened plain =
      (mem_text bin_dict, written open_binary bin_dir bin_dict opened, read_all bin_dict plain)
