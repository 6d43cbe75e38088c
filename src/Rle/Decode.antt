-- ===== src/Rle/Decode.antt =====
-- The decoder of bra_rle.c against the stream format.
use br_archive.Prelude.{
  ℕ, zero, suc, ◌+◌, ◌-◌, ◌≤◌, ◌<◌, ◌≡◌, sym, ap, ◌∙◌, ◌⊎◌, inl, inr, List, [], ◌∷◌, ◌++◌, length,
  take, drop, replicate, ltb, ◌==◌, false, done, arith, length-append, Bool-cases, length-replicate,
  length-drop, length-take, take-append-drop, take-append, drop-append, All-drop, IsBytes,
}
use br_archive.Rle.{literal, run_of, control, decode_size_loop, decode_loop}
use br_archive.Rle.Stores.{memcpy-done, memset-done}
use br_archive.Rle.Format.{PackBits, empty, literals, repeats, skips}
use mathlib.Core.List.{append-nil, append_assoc}
use mathlib.Core.Path.{subst}

control_literal : (n : ℕ) → 1 ≤ n → n ≤ 128 → control (n - 1) ≡ literal n
unfolding control
control_literal n h k = ground arith

control_run : (n : ℕ) → 2 ≤ n → n ≤ 128 → control (257 - n) ≡ run_of n
unfolding control
control_run n h k = ground arith

-- One round of each pass, for each kind of block.
module _ (fuel c n : ℕ) (rest : List ℕ) where
  stored_literal :
      (allocated : ℕ) (out : List ℕ)
      → control c ≡ literal n
      → n ≤ length rest
      → length out + n ≤ allocated
      → decode_loop allocated (suc fuel) (c ∷ rest) out
        ≡ decode_loop allocated fuel (drop n rest) (out ++ take n rest)
  unfolding decode_loop
  stored_literal allocated out e h room =
      let passed : ltb (length rest) n ≡ false = ground arith in
      cc (e, passed, memcpy-done allocated out rest n h room)

  counted_literal :
      (size : ℕ)
      → control c ≡ literal n
      → n ≤ length rest
      → decode_size_loop (suc fuel) (c ∷ rest) size ≡ decode_size_loop fuel (drop n rest) (size + n)
  unfolding decode_size_loop
  counted_literal size e h = ground arith

  counted_short_literal :
      (size : ℕ)
      → control c ≡ literal n
      → length rest < n
      → decode_size_loop (suc fuel) (c ∷ rest) size ≡ done 0
  unfolding decode_size_loop
  counted_short_literal size e h = ground arith

  stored_run :
      (allocated v : ℕ) (out : List ℕ)
      → control c ≡ run_of n
      → length out + n ≤ allocated
      → decode_loop allocated (suc fuel) (c ∷ v ∷ rest) out
        ≡ decode_loop allocated fuel rest (out ++ replicate n v)
  unfolding decode_loop
  stored_run allocated v out e room = cc (e, memset-done allocated out v n room)

  counted_run :
      (v size : ℕ)
      → control c ≡ run_of n
      → decode_size_loop (suc fuel) (c ∷ v ∷ rest) size ≡ decode_size_loop fuel rest (size + n)
  unfolding decode_size_loop
  counted_run v size e = ground arith

-- The stream `s`, which stands for `d`, is decoded by both passes, where the buffer has room.
pub record IsDecoded (s d : List ℕ) (fuel : ℕ) (out : List ℕ) (size : ℕ) : Type 0 where
  pub stored :
      (allocated : ℕ)
      → length (out ++ d) ≤ allocated
      → decode_loop allocated fuel s out ≡ done (out ++ d)
  pub counted : decode_size_loop fuel s size ≡ done (size + length d)

-- A block before a stream that is decoded.
literal_first :
    (fuel : ℕ) (l : List ℕ) {s d : List ℕ} (out : List ℕ) (size : ℕ)
    → 1 ≤ length l
    → length l ≤ 128
    → IsDecoded s d fuel (out ++ l) (size + length l)
    → IsDecoded ((length l - 1) ∷ (l ++ s)) (l ++ d) (suc fuel) out size
literal_first fuel l {s} {d} out size p q r =
    let c = length l - 1 in
    let n = length l in
    let block = control_literal n p q in
    let inside : n ≤ length (l ++ s) = omega (arith, length-append l s) in
    let assoc = append_assoc out l d in
    record {
      stored = λ allocated room.
          stored_literal fuel c n (l ++ s) allocated out block inside
            (omega (arith, length-append out (l ++ d), length-append l d))
          ∙ rw (take-append l s, drop-append l s)
              (r.stored allocated (omega (arith, ap length assoc)) ∙ ap done assoc);
      counted =
          counted_literal fuel c n (l ++ s) size block inside
          ∙ rw (drop-append l s) (r.counted ∙ ap done (omega (arith, length-append l d)));
    }

run_first :
    (fuel n v : ℕ) {s d : List ℕ} (out : List ℕ) (size : ℕ)
    → 2 ≤ n
    → n ≤ 128
    → IsDecoded s d fuel (out ++ replicate n v) (size + n)
    → IsDecoded ((257 - n) ∷ v ∷ s) (replicate n v ++ d) (suc fuel) out size
run_first fuel n v {s} {d} out size p q r =
    let block = control_run n p q in
    let assoc = append_assoc out (replicate n v) d in
    let more = length-append (replicate n v) d in
    record {
      stored = λ allocated room.
          stored_run fuel (257 - n) n s allocated v out block
            (omega (arith, length-append out (replicate n v ++ d), more, length-replicate n v))
          ∙ r.stored allocated (omega (arith, ap length assoc))
          ∙ ap done assoc;
      counted =
          counted_run fuel (257 - n) n s v size block
          ∙ r.counted
          ∙ ap done (omega (arith, more, length-replicate n v));
    }

skip_first :
    (fuel : ℕ) {s d : List ℕ} (out : List ℕ) (size : ℕ)
    → IsDecoded s d fuel out size
    → IsDecoded (128 ∷ s) d (suc fuel) out size
unfolding decode_loop decode_size_loop control
skip_first fuel out size r = record { stored = r.stored; counted = r.counted }

empty_rest : (fuel : ℕ) (out : List ℕ) (size : ℕ) → IsDecoded [] [] fuel out size
unfolding decode_loop decode_size_loop
empty_rest zero out size = record {
  stored = λ allocated room. ap done (sym (append-nil out));
  counted = ap done (omega arith);
}
empty_rest (suc fuel) out size = record {
  stored = λ allocated room. ap done (sym (append-nil out));
  counted = ap done (omega arith);
}

-- Every stream of the format is decoded to what it stands for.
pub decode-PackBits :
    {s d : List ℕ}
    → PackBits s d
    → (fuel : ℕ) (out : List ℕ) (size : ℕ) → length s ≤ fuel
    → IsDecoded s d fuel out size
decode-PackBits empty fuel out size h = empty_rest fuel out size
decode-PackBits (literals l {s = s} p q r) (suc fuel) out size h =
    literal_first fuel l out size p q
      (decode-PackBits r fuel (out ++ l) (size + length l) (omega (arith, length-append l s)))
decode-PackBits (repeats n v p q r) (suc fuel) out size h =
    run_first fuel n v out size p q
      (decode-PackBits r fuel (out ++ replicate n v) (size + n) (omega arith))
decode-PackBits (skips r) (suc fuel) out size h =
    skip_first fuel out size (decode-PackBits r fuel out size (omega arith))
decode-PackBits (literals l p q r) zero out size h = absurd (omega arith)
decode-PackBits (repeats n v p q r) zero out size h = absurd (omega arith)
decode-PackBits (skips r) zero out size h = absurd (omega arith)

-- A stream of bytes is one of the format, or the first pass refuses it.
abbrev Verdict : ℕ → List ℕ → ℕ → Type 0
Verdict fuel s size = ((d : List ℕ) × PackBits s d) ⊎ (decode_size_loop fuel s size ≡ done 0)

data IsControl (c : ℕ) : Type 0 where
  is_literal : (n : ℕ) → 1 ≤ n → n ≤ 128 → c ≡ n - 1 → IsControl c
  is_run : (n : ℕ) → 2 ≤ n → n ≤ 128 → c ≡ 257 - n → IsControl c
  is_skip : c ≡ 128 → IsControl c

IsControl-cases : (c : ℕ) → c < 256 → IsControl c
IsControl-cases c h = elim (Bool-cases (ltb c 128)) [
  | inl e ↦ is_literal (c + 1) (omega arith) (ground arith) (omega arith)
  | inr e ↦ elim (Bool-cases (c == 128)) [
    | inl e' ↦ is_skip (ground arith)
    | inr e' ↦ is_run (257 - c) (omega arith) (ground arith) (ground arith)
  ]
]

Verdict-literal :
    (fuel n : ℕ) (rest : List ℕ) (size : ℕ)
    → 1 ≤ n
    → n ≤ 128
    → Verdict fuel (drop n rest) (size + n)
    → Verdict (suc fuel) ((n - 1) ∷ rest) size
Verdict-literal fuel n rest size p q ih = elim (Bool-cases (ltb (length rest) n)) [
  | inl e ↦
      inr (counted_short_literal fuel (n - 1) n rest size (control_literal n p q) (ground arith))
  | inr e ↦
      let fits : n ≤ length rest = ground arith in
      let round = counted_literal fuel (n - 1) n rest size (control_literal n p q) fits in
      let taken : length (take n rest) ≡ n = omega (arith, length-take n rest) in
      elim ih [
        | inl (d, r) ↦
            inl (
              take n rest ++ d,
              whole d taken (literals (take n rest) (omega arith) (omega arith) r),
            )
        | inr b ↦ inr (round ∙ b)
      ]
]
  where
    whole :
        (d : List ℕ)
        → length (take n rest) ≡ n
        → PackBits ((length (take n rest) - 1) ∷ (take n rest ++ drop n rest)) (take n rest ++ d)
        → PackBits ((n - 1) ∷ rest) (take n rest ++ d)
    whole d e r =
        subst (λ k. PackBits ((k - 1) ∷ rest) (take n rest ++ d)) e
          (subst (λ t. PackBits ((length (take n rest) - 1) ∷ t) (take n rest ++ d))
            (take-append-drop n rest) r)

Verdict-run :
    (fuel n v : ℕ) (rest : List ℕ) (size : ℕ)
    → 2 ≤ n
    → n ≤ 128
    → Verdict fuel rest (size + n)
    → Verdict (suc fuel) ((257 - n) ∷ v ∷ rest) size
Verdict-run fuel n v rest size p q ih =
    let round = counted_run fuel (257 - n) n rest v size (control_run n p q) in
    elim ih [ inl (d, r) ↦ inl (replicate n v ++ d, repeats n v p q r) | inr b ↦ inr (round ∙ b) ]

Verdict-cut : (fuel n size : ℕ) → 2 ≤ n → n ≤ 128 → Verdict (suc fuel) ((257 - n) ∷ []) size
unfolding decode_size_loop
Verdict-cut fuel n size p q = inr (ground (arith, control_run n p q))

Verdict-skip :
    (fuel : ℕ) (rest : List ℕ) (size : ℕ)
    → Verdict fuel rest size
    → Verdict (suc fuel) (128 ∷ rest) size
unfolding decode_size_loop control
Verdict-skip fuel rest size ih = elim ih [ inl (d, r) ↦ inl (d, skips r) | inr h ↦ inr h ]

-- Enough fuel for the verdict.
pub decode_cases :
    (fuel : ℕ) (s : List ℕ) (size : ℕ) → length s ≤ fuel → IsBytes s → Verdict fuel s size
decode_cases fuel [] size h b = inl ([], empty)
decode_cases zero (c ∷ rest) size h b = absurd (omega arith)
decode_cases (suc fuel) (c ∷ []) size h b = elim (IsControl-cases c b.0) [
  | is_literal n p q e ↦ rw e (
      Verdict-literal fuel n [] size p q (
        decode_cases fuel (drop n []) (size + n) (omega (arith, length-drop {A = ℕ} n []))
          (All-drop _ n [] b.1)))
  | is_run n p q e ↦ rw e (Verdict-cut fuel n size p q)
  | is_skip e ↦ rw e (Verdict-skip fuel [] size (decode_cases fuel [] size (omega arith) b.1))
]
decode_cases (suc fuel) (c ∷ v ∷ rest) size h b = elim (IsControl-cases c b.0) [
  | is_literal n p q e ↦ rw e (
      Verdict-literal fuel n (v ∷ rest) size p q (
        decode_cases fuel (drop n (v ∷ rest)) (size + n) (omega (arith, length-drop n (v ∷ rest)))
          (All-drop _ n (v ∷ rest) b.1)))
  | is_run n p q e ↦
      rw e
        (Verdict-run fuel n v rest size p q (decode_cases fuel rest (size + n) (omega arith) b.1.1))
  | is_skip e ↦
      rw e (Verdict-skip fuel (v ∷ rest) size (decode_cases fuel (v ∷ rest) size (omega arith) b.1))
]
