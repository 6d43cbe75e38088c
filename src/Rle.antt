-- ===== src/Rle.antt =====
-- src/encoders/bra_rle.c: run-length encoding as PackBits.
-- A position in the input buffer is the list of the bytes from it on.
pub mod Runs
pub mod Format
pub mod Stores
pub mod Decode
pub mod Encode
pub mod Size
pub mod RoundTrip
mod Tests
use br_archive.Prelude.{
  ℕ, zero, suc, ◌+◌, ◌-◌, Bool, ◌&&◌, List, [], ◌∷◌, ◌++◌, length, take, drop, replicate,
  if◌then◌else◌, ltb, leb, ◌==◌, Outcome, done, failed, fault, stuck, ◌||◌, ◌>>=◌,
}

-- BRA_RLE_MAX_RUNS and BRA_RLE_MIN_RUNS.
abbrev pub max_runs : ℕ
max_runs = 128

abbrev pub min_runs : ℕ
min_runs = 3

-- The loop of the run detection: `run` bytes equal to `first` lie behind us.
unfoldable pub detect_run_loop : ℕ → List ℕ → ℕ → ℕ
detect_run_loop first [] run = run
detect_run_loop first (y ∷ ys) run =
    let more = detect_run_loop first ys (run + 1) in
    if y == first && ltb run max_runs then more else run

-- The length of the run at the front of the bytes left; the callers never pass an empty rest.
unfoldable pub detect_run : List ℕ → ℕ
unfolding detect_run_loop
detect_run [] = 1
detect_run (x ∷ xs) = detect_run_loop x xs 1

-- The inner loop of a literal block, in both passes: `lit` bytes are in the block and `rest`
-- follows them. The result is the final length.
unfoldable pub literal_loop : List ℕ → ℕ → ℕ
unfolding detect_run
literal_loop [] lit = lit
literal_loop (x ∷ xs) lit =
    let more = literal_loop xs (lit + 1) in
    if leb min_runs (detect_run (x ∷ xs))
    then lit
    else if lit + 1 == max_runs
    then lit + 1
    else more

-- The length of the literal block at the front, whose first `run` bytes are in it already.
unfoldable pub literal_length : List ℕ → ℕ → ℕ
unfolding literal_loop
literal_length rest run = literal_loop (drop run rest) run

-- The pre-scan for the size of the output. `stuck` means that the fuel ran out.
unfoldable pub encode_size_loop : ℕ → List ℕ → ℕ → Outcome ℕ
unfolding detect_run literal_length
encode_size_loop fuel [] size = done size
encode_size_loop zero (x ∷ xs) size = stuck
encode_size_loop (suc fuel) (x ∷ xs) size =
    let rest = x ∷ xs in
    let run = detect_run rest in
    let lit = literal_length rest run in
    let after_run = encode_size_loop fuel (drop run rest) (size + 2) in
    let after_lit = encode_size_loop fuel (drop lit rest) (size + (1 + lit)) in
    if leb min_runs run then after_run else after_lit

unfoldable pub encode_compute_size : List ℕ → Outcome ℕ
unfolding encode_size_loop
encode_compute_size buf = encode_size_loop (length buf) buf 0

-- `out` are the bytes that are stored in the output buffer before `p`. A read past the bytes left of
-- the input is a fault, and so is a store past the size that was allocated.
module _ (allocated : ℕ) where
  -- `n` bytes copied to `p`, which moves behind them.
  unfoldable pub memcpy : List ℕ → List ℕ → ℕ → Outcome (List ℕ)
  memcpy out src n =
      if ltb (length src) n || ltb allocated (length out + n)
      then fault
      else done (out ++ take n src)

  -- `n` times the byte `v`.
  unfoldable pub memset : List ℕ → ℕ → ℕ → Outcome (List ℕ)
  memset out v n = if ltb allocated (length out + n) then fault else done (out ++ replicate n v)

  -- The second pass. A control byte is stored as a uint8_t, so `-(run - 1)` is `257 - run`; it is
  -- stored together with what comes behind it.
  unfoldable pub encode_loop : ℕ → List ℕ → List ℕ → Outcome (List ℕ)
  unfolding detect_run literal_length memcpy
  encode_loop fuel [] out = done out
  encode_loop zero (x ∷ xs) out = stuck
  encode_loop (suc fuel) (x ∷ xs) out =
      let rest = x ∷ xs in
      let run = detect_run rest in
      let lit = literal_length rest run in
      let after_run = memcpy out ((257 - run) ∷ x ∷ []) 2 >>= encode_loop fuel (drop run rest) in
      let after_lit =
        memcpy out ((lit - 1) ∷ rest) (suc lit) >>= encode_loop fuel (drop lit rest) in
      if leb min_runs run then after_run else after_lit

-- What one control byte asks for.
pub data Control : Type 0 where
  literal : ℕ → Control
  run_of : ℕ → Control
  skip : Control

-- The control byte read as an int8_t, from 0 to 127, from -127 to -1, or -128.
unfoldable pub control : ℕ → Control
control c = if ltb c 128 then literal (c + 1) else if c == 128 then skip else run_of (257 - c)

-- The size that a block adds. 0 is returned on an error, and ends the scan.
unfoldable pub decode_size_loop : ℕ → List ℕ → ℕ → Outcome ℕ
unfolding control
decode_size_loop fuel [] size = done size
decode_size_loop zero (c ∷ rest) size = stuck
decode_size_loop (suc fuel) (c ∷ rest) size = elim (control c) [
  | literal n ↦
      let more = decode_size_loop fuel (drop n rest) (size + n) in
      if ltb (length rest) n then done 0 else more
  | run_of n ↦
      let more = decode_size_loop fuel (drop 1 rest) (size + n) in
      if length rest == 0 then done 0 else more
  | skip ↦ decode_size_loop fuel rest size
]

unfoldable pub decode_compute_size : List ℕ → Outcome ℕ
unfolding decode_size_loop
decode_compute_size buf = decode_size_loop (length buf) buf 0

-- The decoder, where `out` are the bytes stored before `p` in a buffer of the size allocated;
-- `failed` is the jump to the error label.
module _ (allocated : ℕ) where
  unfoldable pub decode_loop : ℕ → List ℕ → List ℕ → Outcome (List ℕ)
  unfolding control memcpy memset
  decode_loop fuel [] out = done out
  decode_loop zero (c ∷ rest) out = stuck
  decode_loop (suc fuel) (c ∷ rest) out = elim (control c) [
    | literal n ↦
        let more = memcpy allocated out rest n >>= decode_loop fuel (drop n rest) in
        if ltb (length rest) n then failed else more
    | run_of n ↦ elim rest [
      | [] ↦ failed
      | v ∷ rest' ↦ memset allocated out v n >>= decode_loop fuel rest'
    ]
    | skip ↦ decode_loop fuel rest out
  ]

-- A buffer of which `size` is reported as its size, and the bytes stored into it from its start.
pub record Buffer : Type 0 where
  pub size : ℕ
  pub bytes : List ℕ

-- `malloc size` says whether the allocation succeeds. Where it does, the buffer has this size.
module _ (malloc : ℕ → Bool) where
  -- `assert(buf_size > 0)` comes first.
  unfoldable pub encode : List ℕ → Outcome Buffer
  encode [] = fault
  encode (x ∷ xs) = do
    let buf = x ∷ xs
    s ← encode_compute_size buf
    let store = encode_loop s (length buf) buf [] >>= λ out. done (record { size = s; bytes = out })
    if s == 0 then failed else if malloc s then store else failed

  unfoldable pub decode : List ℕ → Outcome Buffer
  unfolding decode_compute_size decode_loop
  decode buf = do
    s ← decode_compute_size buf
    let store = decode_loop s (length buf) buf [] >>= λ out. done (record { size = s; bytes = out })
    if s == 0 then failed else if malloc s then store else failed
