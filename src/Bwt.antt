-- ===== src/Bwt.antt =====
-- src/encoders/bra_bwt.c: the Burrows-Wheeler transform. The C library's sort is a parameter.
pub mod Order
pub mod Tally
pub mod Cycles
pub mod Rotations
pub mod Counting
pub mod Transform
pub mod Sorted
pub mod InsertionSort
pub mod Primary
pub mod RoundTrip
pub mod Safety
mod Tests
use Prim.Native.Nat.{Ordering}
use br_archive.Prelude.{
  ℕ, zero, suc, ◌+◌, ◌-◌, ◌*◌, ◌%◌, ◌^◌, Bool, List, [], ◌∷◌, length, get_or, replicate, ltb, ◌==◌,
  if◌then◌else◌, Outcome, done, failed, fault, ◌>>=◌, read, write,
}

-- The loop of bwt_suffix_context_compare from round `i`, over the bytes that it reads in a round.
unfoldable pub compare_loop : (ℕ → ℕ) → (ℕ → ℕ) → ℕ → ℕ → Ordering
compare_loop byte_a byte_b zero i = Ordering.eq
compare_loop byte_a byte_b (suc left) i =
    let rest = compare_loop byte_a byte_b left (i + 1) in
    if ltb (byte_a i) (byte_b i)
    then Ordering.lt
    else (if ltb (byte_b i) (byte_a i) then Ordering.gt else rest)

-- `ctx->data[(sa + i) % ctx->length]`.
abbrev pub rotation_byte : List ℕ → ℕ → ℕ → ℕ
rotation_byte bytes s i = get_or bytes ((s + i) % 2 ^ 32 % length bytes) 0

unfoldable pub suffix_compare : List ℕ → ℕ → ℕ → Ordering
unfolding compare_loop
suffix_compare bytes sa sb =
    compare_loop (rotation_byte bytes sa) (rotation_byte bytes sb) (length bytes) 0

-- `index[i] = i` for the rounds left.
unfoldable pub init_index : ℕ → ℕ → List ℕ
init_index zero i = []
init_index (suc left) i = i ∷ init_index left (i + 1)

-- What is stored into `out_buf`, and the primary index.
unfoldable pub last_column : List ℕ → List ℕ → ℕ → ℕ → Outcome (List ℕ × ℕ)
last_column buf [] i primary_index = done ([], primary_index)
last_column buf (s ∷ index) i primary_index = do
  byte ← read buf ((s + length buf + 0xffff_ffff) % 2 ^ 32 % length buf)
  (out, primary) ← last_column buf index (i + 1) (if s == 0 then i else primary_index)
  done (byte ∷ out, primary)

module _ (sort : (ℕ → ℕ → Ordering) → List ℕ → List ℕ) (malloc : ℕ → Bool) where
  unfoldable pub encode2 : List ℕ → Outcome (List ℕ × ℕ)
  encode2 buf =
      let encoded = last_column buf (sort (suffix_compare buf) (init_index (length buf) 0)) 0 0 in
      if ltb 0 (length buf) then (if malloc (length buf * 4) then encoded else failed) else fault

  unfoldable pub encode : List ℕ → Outcome (List ℕ × ℕ)
  unfolding encode2
  encode buf = if malloc (length buf) then encode2 buf else failed

-- `count[buf[i]]++`, also for the frequencies from a table's entry on.
unfoldable pub increment : List ℕ → ℕ → Outcome (ℕ × List ℕ)
increment table c = do n ← read table c; table' ← write table c ((n + 1) % 2 ^ 32); done (n, table')

unfoldable pub count_loop : List ℕ → List ℕ → Outcome (List ℕ)
unfolding increment
count_loop [] count = done count
count_loop (c ∷ buf) count = increment count c >>= λ (n, count'). count_loop buf count'

-- `for (i = 1; i < BRA_ALPHABET_SIZE; i++)`.
unfoldable pub first_loop : List ℕ → ℕ → ℕ → List ℕ → Outcome (List ℕ)
first_loop count zero i first_occurrence = done first_occurrence
first_loop count (suc left) i first_occurrence = do
  previous ← read first_occurrence (i - 1)
  n ← read count (i - 1)
  first' ← write first_occurrence i ((previous + n) % 2 ^ 32)
  first_loop count left (i + 1) first'

-- `transform[temp_first[c]++] = i` for the bytes from `i` on.
unfoldable pub transform_loop : List ℕ → ℕ → List ℕ → List ℕ → Outcome (List ℕ)
unfolding increment
transform_loop [] i temp_first transform = done transform
transform_loop (c ∷ buf) i temp_first transform = do
  (position, temp_first') ← increment temp_first c
  transform' ← write transform position i
  transform_loop buf (i + 1) temp_first' transform'

-- `index = transform[index]; out_buf[i] = buf[index];`
unfoldable pub follow_loop : List ℕ → List ℕ → ℕ → ℕ → Outcome (List ℕ)
follow_loop buf transform zero index = done []
follow_loop buf transform (suc left) index = do
  index' ← read transform index
  byte ← read buf index'
  out ← follow_loop buf transform left index'
  done (byte ∷ out)

unfoldable pub decode2 : List ℕ → ℕ → List ℕ → Outcome (List ℕ)
decode2 buf primary_index transform =
    let decoded = (do
      count ← count_loop buf (replicate 256 0)
      first_occurrence ← first_loop count 255 1 (replicate 256 0)
      transform' ← transform_loop buf 0 first_occurrence transform
      follow_loop buf transform' (length buf) primary_index) in
    if ltb 0 (length buf)
    then (if ltb primary_index (length buf) then decoded else fault)
    else fault

-- The arrays that malloc gives are of `buf_size` words, which are not read before they are written.
unfoldable pub decode : (ℕ → Bool) → List ℕ → ℕ → Outcome (List ℕ)
unfolding decode2
decode malloc buf primary_index =
    let allocated =
      if malloc (length buf * 4)
      then (if malloc (length buf)
          then decode2 buf primary_index (replicate (length buf) 0)
          else failed)
      else failed in
    if ltb 0 (length buf)
    then (if ltb primary_index (length buf) then allocated else fault)
    else fault
