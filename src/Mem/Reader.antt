-- ===== src/Mem/Reader.antt =====
-- A reader of the texts that bin_to_hbm_mem writes, for their proofs: addresses after `@`, and bytes as
-- pairs of hexadecimal digits between blanks and line ends.
use rapidstream_noc.Common.{ℕ, ◌+◌, ◌-◌, ◌*◌, List, [], ◌∷◌, ◌++◌, ltb, ◌==◌, if◌then◌else◌, ◌||◌}
use rapidstream_noc.Common.Text.{Text}

-- Where the reader is: before an address, inside one, between bytes, or after a byte's first digit.
pub data State : Type 0 where
  outside : State
  in_address : (address : Text) → State
  in_bytes : (address : Text) (bytes : List ℕ) → State
  in_byte : (address : Text) (bytes : List ℕ) (high : ℕ) → State

abbrev pub digit_of : ℕ → ℕ
digit_of c = if ltb c b'A' then c - b'0' else c - b'A' + 10

-- The next state.
unfoldable pub next : State → ℕ → State
next outside c = if c == b'@' then in_address [] else outside
next (in_address address) c =
    if c == 10 then in_bytes address [] else in_address (address ++ c ∷ [])
next (in_bytes address bytes) c =
    if c == b'@'
    then in_address []
    else if c == b' ' || c == 10
    then in_bytes address bytes
    else in_byte address bytes (digit_of c)
next (in_byte address bytes high) c = in_bytes address (bytes ++ (high * 16 + digit_of c) ∷ [])

-- The block that ends where a character is read, or the text ends.
abbrev pub ended : State → List (Text × List ℕ)
ended (in_bytes address bytes) = (address, bytes) ∷ []
ended _ = []

-- The addresses of a text with the bytes after them.
unfoldable pub read_mem : State → Text → List (Text × List ℕ)
unfolding next
read_mem s [] = ended s
read_mem s (c ∷ t) = let rest = read_mem (next s c) t in if c == b'@' then ended s ++ rest else rest
