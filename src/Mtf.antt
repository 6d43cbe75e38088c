-- ===== src/Mtf.antt =====
-- src/encoders/bra_mtf.c: the move-to-front transform.
pub mod Table
pub mod RoundTrip
mod Tests
use br_archive.Prelude.{
  ℕ, zero, suc, ◌+◌, ◌%◌, Bool, List, [], ◌∷◌, length, replicate, if◌then◌else◌, ◌==◌, Outcome,
  done, failed, fault, stuck, ◌>>=◌, read, write,
}

-- BRA_ALPHABET_SIZE.
abbrev pub alphabet_size : ℕ
alphabet_size = 256

-- `for (i = 0; i < BRA_ALPHABET_SIZE; i++)`, with the rounds left.
unfoldable pub init_table_loop : ℕ → ℕ → List ℕ → Outcome (List ℕ)
init_table_loop zero i table = done table
init_table_loop (suc left) i table = do
  table' ← write table i (i % 256)
  init_table_loop left (i + 1) table'

unfoldable pub init_table : List ℕ → Outcome (List ℕ)
unfolding init_table_loop
init_table table = init_table_loop alphabet_size 0 table

-- `while (table[position] != symbol)`. At the end of the table the uint8_t position wraps to 0, so
-- a search for a symbol that is not there does not end.
unfoldable pub find_symbol : List ℕ → ℕ → ℕ → Outcome ℕ
find_symbol [] symbol position = stuck
find_symbol (t ∷ ts) symbol position =
    let more = find_symbol ts symbol (position + 1) in if t == symbol then done position else more

-- `for (i = position; i > 0; --i) table[i] = table[i - 1];`
unfoldable pub shift_loop : ℕ → List ℕ → Outcome (List ℕ)
shift_loop zero table = done table
shift_loop (suc i) table = do
  previous ← read table i
  table' ← write table (suc i) previous
  shift_loop i table'

unfoldable pub encode_symbol : List ℕ → ℕ → Outcome (ℕ × List ℕ)
encode_symbol table symbol = do
  position ← find_symbol table symbol 0
  temp ← read table position
  table' ← shift_loop position table
  table'' ← write table' 0 temp
  done (position, table'')

unfoldable pub decode_symbol : List ℕ → ℕ → Outcome (List ℕ)
decode_symbol table position = do
  temp ← read table position
  table' ← shift_loop position table
  write table' 0 temp

-- The loops over the buffer. The result is what is stored into `out_buf`.
unfoldable pub encode_loop : List ℕ → List ℕ → Outcome (List ℕ)
encode_loop table [] = done []
encode_loop table (symbol ∷ rest) = do
  (position, table') ← encode_symbol table symbol
  out ← encode_loop table' rest
  done (position ∷ out)

unfoldable pub decode_loop : List ℕ → List ℕ → Outcome (List ℕ)
decode_loop table [] = done []
decode_loop table (position ∷ rest) = do
  symbol ← read table position
  table' ← decode_symbol table position
  out ← decode_loop table' rest
  done (symbol ∷ out)

-- The table on the stack; what it holds before `init_table` is not read.
abbrev stack_table : List ℕ
stack_table = replicate alphabet_size 0

-- `assert(buf_size > 0)` comes first in all four functions.
unfoldable pub encode2 : List ℕ → Outcome (List ℕ)
encode2 [] = fault
encode2 (symbol ∷ rest) = do table ← init_table stack_table; encode_loop table (symbol ∷ rest)

unfoldable pub decode2 : List ℕ → Outcome (List ℕ)
decode2 [] = fault
decode2 (position ∷ rest) = do table ← init_table stack_table; decode_loop table (position ∷ rest)

-- `bra_mtf_encode` and `bra_mtf_decode`: `failed` is a NULL from malloc.
module _ (malloc : ℕ → Bool) where
  unfoldable pub encode : List ℕ → Outcome (List ℕ)
  encode [] = fault
  encode (symbol ∷ rest) =
      if malloc (length (symbol ∷ rest)) then encode2 (symbol ∷ rest) else failed

  unfoldable pub decode : List ℕ → Outcome (List ℕ)
  decode [] = fault
  decode (position ∷ rest) =
      if malloc (length (position ∷ rest)) then decode2 (position ∷ rest) else failed
