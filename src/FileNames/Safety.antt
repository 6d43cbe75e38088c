-- ===== src/FileNames/Safety.antt =====
-- What src/lib_bra_private.c accepts as a file name, and what its header checksum is of.
use br_archive.Prelude.{
  take-all, ℕ, ◌≡◌, ◌<◌, ◌≤◌, ◌⊎◌, refl, ap, ◌∙◌, sym, subst, true, false, inl, inr, List, [], ◌∷◌,
  ◌++◌, length, get_or, ◌||◌, ◌==◌, ltb, leb, arith, IsBytes, All-append,
}
use br_archive.Prelude.Actions.{ok}
use br_archive.Io.Entries.{MetaEntry}
use br_archive.Io.Words.{bytes_of}
use br_archive.Crc32c.{crc32c_table}
use br_archive.Crc32c.Bitwise.{crc32c_table-append}
use br_archive.FileNames.{starts_with, contains, up, validate_filename, compute_header_crc32}

starts_with-append : (pattern rest : List ℕ) → starts_with pattern (pattern ++ rest) ≡ true
unfolding starts_with
starts_with-append [] rest = refl
starts_with-append (c ∷ pattern) rest = let h = starts_with-append pattern rest in ground (arith, h)

contains_there : (pattern fn : List ℕ) → starts_with pattern fn ≡ true → contains pattern fn ≡ true
unfolding contains
contains_there pattern [] h = h
contains_there pattern (x ∷ fn) h = rw h refl

contains-append :
    (pattern before rest : List ℕ) → contains pattern (before ++ (pattern ++ rest)) ≡ true
unfolding contains
contains-append pattern [] rest =
    contains_there pattern (pattern ++ rest) (starts_with-append pattern rest)
contains-append pattern (x ∷ before) rest =
    let h = contains-append pattern before rest in ground (arith, h)

-- What the checks exclude, for one delimiter.
abbrev pub Excludes : List ℕ → List ℕ → List ℕ → ℕ → Type 0
Excludes fn before rest delimiter =
    (fn ≡ delimiter ∷ rest → ⊥)
    × (fn ≡ up delimiter ++ rest → ⊥)
    × (fn ≡ before ++ ((delimiter ∷ up delimiter) ++ rest) → ⊥)

excluded :
    (fn before rest : List ℕ) (delimiter : ℕ)
    → (get_or fn 0 0 == delimiter) ≡ false
    → starts_with (up delimiter) fn ≡ false
    → contains (delimiter ∷ up delimiter) fn ≡ false
    → Excludes fn before rest delimiter
excluded fn before rest delimiter first start inside = (
  λ e. let at = ap (λ (l : List ℕ). get_or l 0 0) e in absurd (ground (arith, at, first)),
  λ e.
      let there = ap (starts_with (up delimiter)) e ∙ starts_with-append (up delimiter) rest in
      cc (there, start),
  λ e.
      let there =
        ap (contains (delimiter ∷ up delimiter)) e
        ∙ contains-append (delimiter ∷ up delimiter) before rest in
      cc (there, inside),
)

-- For `/` as the delimiter and for a backslash: a name that is accepted does not start with the
-- delimiter, nor with `..` and the delimiter, and has `..` nowhere between two of the delimiter.
pub validate_filename_safe :
    (fn before rest : List ℕ) (fn_size delimiter : ℕ)
    → validate_filename fn fn_size ≡ true
    → (delimiter ≡ b'/') ⊎ (delimiter ≡ b'\\')
    → (fn ≡ delimiter ∷ rest → ⊥)
      × (fn ≡ up delimiter ++ rest → ⊥)
      × (fn ≡ before ++ ((delimiter ∷ up delimiter) ++ rest) → ⊥)
unfolding validate_filename
validate_filename_safe fn before rest fn_size delimiter h (inl e) =
    subst (Excludes fn before rest) (sym e)
      (excluded fn before rest b'/' (ground (arith, h)) (ground (arith, h)) (ground (arith, h)))
validate_filename_safe fn before rest fn_size delimiter h (inr e) =
    subst (Excludes fn before rest) (sym e)
      (excluded fn before rest b'\\' (ground (arith, h)) (ground (arith, h)) (ground (arith, h)))

-- For a name of 1 to 65535 bytes, the checksum of the header is the one of the attributes, the two
-- bytes of the name's size and the name, joined.
pub compute_header_crc32_lem :
    (filename : List ℕ) (me : MetaEntry)
    → IsBytes filename
    → me.attributes < 256
    → 0 < length filename
    → length filename ≤ 65_535
    → compute_header_crc32 (length filename) filename me
      ≡ ok tt (record me {
        crc32 = crc32c_table (me.attributes ∷ (bytes_of 2 (length filename) ++ filename)) 0;
      })
unfolding compute_header_crc32
compute_header_crc32_lem filename me b attributes positive small =
    let n = length filename in
    let size_bytes : IsBytes (bytes_of 2 n) = (omega arith, (omega arith, tt)) in
    let rest_bytes : IsBytes (bytes_of 2 n ++ filename) =
      All-append (λ v. v < 256) (bytes_of 2 n) filename size_bytes b in
    let whole =
      crc32c_table-append (me.attributes ∷ []) (bytes_of 2 n ++ filename) 0 (attributes, tt)
        rest_bytes
      ∙ crc32c_table-append (bytes_of 2 n) filename (crc32c_table (me.attributes ∷ []) 0) size_bytes
          b in
    let fits : (ltb 65_535 n || n == 0) ≡ false = ground arith in
    let there : leb n n ≡ true = ground arith in rw (fits, there, take-all filename, whole)
