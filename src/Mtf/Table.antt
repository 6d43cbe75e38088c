-- ===== src/Mtf/Table.antt =====
-- The table of bra_mtf.c: what one symbol does to it.
use br_archive.Prelude.{
  count, count-append, ℕ, zero, suc, ◌+◌, ◌≤◌, ◌<◌, ◌≡◌, refl, sym, ap, ◌∙◌, inl, inr, List, [],
  ◌∷◌, ◌++◌, length, take, drop, get_or, set, ◌==◌, done, read-eq-done, write-eq-done, take-set,
  drop-set, take-suc, split_at, length-append, length-set, Bool-cases, arith, IsBytes, All-get_or,
  All-append, All-take, All-drop, length-take, length-drop,
}
use br_archive.Mtf.{shift_loop, find_symbol, encode_symbol, decode_symbol}
use mathlib.Core.List.{append_assoc}

-- The entry at `p` in front of the others.
abbrev pub to_front : ℕ → List ℕ → List ℕ
to_front p table = get_or table p 0 ∷ (take p table ++ drop (suc p) table)

-- After the shift the first entry stands twice, and the entry at `p` is overwritten.
shift_loop_lem :
    (p : ℕ) (table : List ℕ)
    → p < length table
    → shift_loop p table ≡ done (get_or table 0 0 ∷ (take p table ++ drop (suc p) table))
unfolding shift_loop
shift_loop_lem zero [] h = absurd (omega arith)
shift_loop_lem zero (x ∷ xs) h = refl
shift_loop_lem (suc i) [] h = absurd (omega arith)
shift_loop_lem (suc i) (x ∷ xs) h =
    let table = x ∷ xs in
    let v = get_or table i 0 in
    let table' = set table (suc i) v in
    let ih = shift_loop_lem i table' (omega (arith, length-set table (suc i) v)) in
    let moved : take i table ++ (v ∷ drop (suc i) xs) ≡ x ∷ (take i xs ++ drop (suc i) xs) =
      sym (append_assoc (take i table) (v ∷ []) (drop (suc i) xs))
      ∙ ap (λ t. t ++ drop (suc i) xs) (sym (take-suc i table 0 (omega arith))) in
    rw (read-eq-done table i 0 (omega arith), write-eq-done table (suc i) v h)
      (ih
        ∙ ap (λ t. done (x ∷ t))
            (rw (take-set i (suc i) table v (omega arith), drop-set i xs v (omega arith)) moved))

-- The decoder's table after a symbol, when the position lies in the table.
pub decode_symbol_lem :
    (p : ℕ) (table : List ℕ) → p < length table → decode_symbol table p ≡ done (to_front p table)
unfolding decode_symbol
decode_symbol_lem p table h = rw (read-eq-done table p 0 h, shift_loop_lem p table h)

-- The encoder's, when the symbol was found there.
pub encode_symbol_lem :
    (p c : ℕ) (table : List ℕ)
    → find_symbol table c 0 ≡ done p
    → p < length table
    → encode_symbol table c ≡ done (p, to_front p table)
unfolding encode_symbol
encode_symbol_lem p c table e h = rw (e, read-eq-done table p 0 h, shift_loop_lem p table h)

pub count-to_front :
    (c p : ℕ) (table : List ℕ) → p < length table → count c (to_front p table) ≡ count c table
count-to_front c p table h =
    let v = get_or table p 0 in
    let rest = drop (suc p) table in
    sym (
      ap (count c) (split_at p table 0 h)
      ∙ (unfold count in
          (omega
            (arith, count-append c (take p table) (v ∷ rest), count-append c (take p table) rest))))

pub length-to_front :
    (p : ℕ) (table : List ℕ) → p < length table → length (to_front p table) ≡ length table
length-to_front p table h = omega (
  arith,
  length-append (take p table) (drop (suc p) table),
  length-take p table,
  length-drop (suc p) table,
)

-- A symbol of the table is found, at a place where it stands.
pub find_symbol_lem :
    (table : List ℕ) (c pos : ℕ)
    → 1 ≤ count c table
    → (p : ℕ) × (find_symbol table c pos ≡ done (pos + p))
      × (p < length table)
      × (get_or table p 0 ≡ c)
unfolding find_symbol count
find_symbol_lem [] c pos h = absurd (omega arith)
find_symbol_lem (x ∷ xs) c pos h = elim (Bool-cases (x == c)) [
  | inl e ↦ (0, rw e (ap done (omega arith)), omega arith, ground arith)
  | inr e ↦
      let (p, found, inside, there) = find_symbol_lem xs c (pos + 1) (ground arith) in
      (suc p, rw e (found ∙ ap done (omega arith)), omega arith, there)
]

count-get_or : (table : List ℕ) (p : ℕ) → p < length table → 1 ≤ count (get_or table p 0) table
unfolding count
count-get_or [] p h = absurd (omega arith)
count-get_or (x ∷ xs) zero h = ground arith
count-get_or (x ∷ xs) (suc p) h = omega (arith, count-get_or xs p (omega arith))

-- An entry that stands in the table once is found at its place.
pub find_symbol-get_or :
    (table : List ℕ) (p pos : ℕ)
    → p < length table
    → count (get_or table p 0) table ≤ 1
    → find_symbol table (get_or table p 0) pos ≡ done (pos + p)
unfolding find_symbol count
find_symbol-get_or [] p pos h k = absurd (omega arith)
find_symbol-get_or (x ∷ xs) zero pos h k = ground arith
find_symbol-get_or (x ∷ xs) (suc p) pos h k = elim (Bool-cases (x == get_or xs p 0)) [
  | inl e ↦ absurd (ground (arith, count-get_or xs p))
  | inr e ↦
      rw e (find_symbol-get_or xs p (pos + 1) (omega arith) (ground arith) ∙ ap done (omega arith))
]

-- The invariant: the table holds every byte once, and nothing else.
pub record IsTable (table : List ℕ) : Type 0 where
  pub size : length table ≡ 256
  pub once : (c : ℕ) → c < 256 → count c table ≡ 1
  pub bytes : IsBytes table

pub to_front-IsTable :
    (p : ℕ) {table : List ℕ} → p < 256 → IsTable table → IsTable (to_front p table)
to_front-IsTable p {table} h t =
    let inside : p < length table = omega (arith, t.size) in
    record {
      size = length-to_front p table inside ∙ t.size;
      once = λ c k. count-to_front c p table inside ∙ t.once c k;
      bytes = (
        All-get_or _ table p 0 inside t.bytes,
        All-append _ _ _ (All-take _ p table t.bytes) (All-drop _ (suc p) table t.bytes),
      );
    }
