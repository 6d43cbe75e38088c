-- ===== src/Rle/Encode.antt =====
-- Both passes of the encoder of bra_rle.c against the stream format.
use br_archive.Prelude.{
  ℕ, zero, suc, ◌+◌, ◌-◌, ◌≤◌, ◌≡◌, sym, ap, ◌∙◌, inl, inr, true, false, List, [], ◌∷◌, ◌++◌,
  length, take, drop, leb, done, Bool-cases, take-append-drop, length-take, length-drop,
  length-append, arith,
}
use br_archive.Rle.Stores.{memcpy-done}
use br_archive.Rle.{detect_run, literal_length, encode_size_loop, encode_loop, min_runs}
use br_archive.Rle.Runs.{detect_run_lem, literal_length_bounds}
use br_archive.Rle.Format.{PackBits, empty, literals, repeats}
use mathlib.Core.Path.{subst}
use mathlib.Core.List.{append-nil, append_assoc}

-- From `rest` on, one stream is stored by the second pass and counted by the first.
pub record IsEncoded (fuel : ℕ) (rest out : List ℕ) (size : ℕ) : Type 0 where
  pub stream : List ℕ
  pub format : PackBits stream rest
  pub stored :
      (allocated : ℕ)
      → length (out ++ stream) ≤ allocated
      → encode_loop allocated fuel rest out ≡ done (out ++ stream)
  pub counted : encode_size_loop fuel rest size ≡ done (size + length stream)

run_block :
    (fuel x : ℕ) (xs out : List ℕ) (size : ℕ)
    → leb min_runs (detect_run (x ∷ xs)) ≡ true
    → let run = detect_run (x ∷ xs) in
      IsEncoded fuel (drop run (x ∷ xs)) (out ++ ((257 - run) ∷ x ∷ [])) (size + 2)
      → IsEncoded (suc fuel) (x ∷ xs) out size
run_block fuel x xs out size e ih =
    let run = detect_run (x ∷ xs) in
    let front = detect_run_lem x xs in
    record {
      stream = (257 - run) ∷ x ∷ ih.stream;
      format =
          subst (PackBits _) (sym front.equal)
            (repeats run x (ground arith) front.bounded ih.format);
      stored =
          unfold encode_loop in
          (λ allocated h.
            let block = (257 - run) ∷ x ∷ [] in
            let assoc = append_assoc out block ih.stream in
            let room : length out + 2 ≤ allocated =
              omega (arith, length-append out (block ++ ih.stream)) in
            rw (e, memcpy-done allocated out block 2 (omega arith) room)
              (ih.stored allocated (omega (arith, ap length assoc)) ∙ ap done assoc));
      counted = unfold encode_size_loop in rw e (ih.counted ∙ ap done (omega arith));
    }

literal_block :
    (fuel x : ℕ) (xs out : List ℕ) (size : ℕ)
    → leb min_runs (detect_run (x ∷ xs)) ≡ false
    → let rest = x ∷ xs in
      let lit = literal_length rest (detect_run rest) in
      IsEncoded fuel (drop lit rest) (out ++ ((lit - 1) ∷ take lit rest)) (size + (1 + lit))
      → IsEncoded (suc fuel) (x ∷ xs) out size
literal_block fuel x xs out size e ih =
    let rest = x ∷ xs in
    let run = detect_run rest in
    let lit = literal_length rest run in
    let front = detect_run_lem x xs in
    let bounds = literal_length_bounds rest run (ground arith) front.fits in
    let taken : length (take lit rest) ≡ lit = omega (arith, length-take lit rest) in
    record {
      stream = (lit - 1) ∷ (take lit rest ++ ih.stream);
      format =
          subst (λ n. PackBits ((n - 1) ∷ (take lit rest ++ ih.stream)) rest) taken
            (subst (PackBits _) (take-append-drop lit rest)
              (literals (take lit rest) (omega (arith, front.positive)) (omega arith) ih.format));
      stored =
          unfold encode_loop in
          (λ allocated h.
            let block = (lit - 1) ∷ take lit rest in
            let assoc = append_assoc out block ih.stream in
            let room : length out + suc lit ≤ allocated = omega (
              arith,
              length-append out (block ++ ih.stream),
              length-append (take lit rest) ih.stream,
            ) in
            rw (e, memcpy-done allocated out ((lit - 1) ∷ rest) (suc lit) (omega arith) room)
              (ih.stored allocated (omega (arith, ap length assoc)) ∙ ap done assoc));
      counted =
          unfold encode_size_loop in
          rw e (ih.counted ∙ ap done (omega (arith, length-append (take lit rest) ih.stream)));
    }

-- Fuel for the bytes left is enough: every block takes a byte.
pub encode_loop_lem :
    (fuel : ℕ) (rest out : List ℕ) (size : ℕ) → length rest ≤ fuel → IsEncoded fuel rest out size
encode_loop_lem zero [] out size h = record {
  stream = [];
  format = empty;
  stored = λ allocated room. unfold encode_loop in ap done (sym (append-nil out));
  counted = unfold encode_size_loop in ap done (omega arith);
}
encode_loop_lem (suc fuel) [] out size h = record {
  stream = [];
  format = empty;
  stored = λ allocated room. unfold encode_loop in ap done (sym (append-nil out));
  counted = unfold encode_size_loop in ap done (omega arith);
}
encode_loop_lem zero (x ∷ xs) out size h = absurd (omega arith)
encode_loop_lem (suc fuel) (x ∷ xs) out size h =
    let rest = x ∷ xs in
    let run = detect_run rest in
    let lit = literal_length rest run in
    let front = detect_run_lem x xs in
    elim (Bool-cases (leb min_runs run)) [
      | inl e ↦ run_block fuel x xs out size e (
          encode_loop_lem fuel (drop run rest) _ (size + 2)
            (omega (arith, front.positive, length-drop run rest)))
      | inr e ↦ literal_block fuel x xs out size e (
          encode_loop_lem fuel (drop lit rest) _ (size + (1 + lit)) (
            omega (
              arith,
              front.positive,
              length-drop lit rest,
              literal_length_bounds rest run (ground arith) front.fits,
            )))
    ]
