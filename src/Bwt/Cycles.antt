-- ===== src/Bwt/Cycles.antt =====
-- Rotations of the bytes in src/encoders/bra_bwt.c, and the comparison of two of them.
use Prim.Native.Nat.{Ordering}
use br_archive.Prelude.{
  ℕ, suc, ◌+◌, ◌-◌, ◌%◌, ◌≡◌, ◌≢◌, ◌<◌, ap, ◌∙◌, sym, Bool, true, false, if◌then◌else◌, arith, List,
  length, get_or, ltb,
}
use br_archive.Bwt.{compare_loop}
use native.Mathlib.Nat.{mod-add-mod, add-mod_right, add-mod-mod, mod-lt}
use br_archive.Bwt.Order.{
  flip, compare_loop-flip, compare_loop_trans, compare_loop-eq, compare_loop-cong,
  compare_loop-last,
}

-- The index before `s`, round the end.
abbrev pub back : ℕ → ℕ → ℕ
back n s = (s + (n - 1)) % n

-- The byte at place `i` of the rotation that starts at `s`.
abbrev pub cyc : List ℕ → ℕ → ℕ → ℕ
cyc bytes s i = get_or bytes ((s + i) % length bytes) 0

pub back-suc : (n s i : ℕ) → 0 < n → (back n s + suc i) % n ≡ (s + i) % n
back-suc n s i h =
    mod-add-mod (s + (n - 1)) n (suc i)
    ∙ ap (λ (t : ℕ). t % n) (omega arith)
    ∙ add-mod_right (s + i) n

abbrev pub is_lt : Ordering → Bool
is_lt Ordering.lt = true
is_lt Ordering.eq = false
is_lt Ordering.gt = false

abbrev pub is_le : Ordering → Bool
is_le Ordering.lt = true
is_le Ordering.eq = true
is_le Ordering.gt = false

pub by_first :
    (f g : ℕ → ℕ) (m : ℕ) (o : Ordering)
    → (f 0 ≡ g 0 → compare_loop f g m 1 ≡ o)
    → compare_loop f g (suc m) 0
      ≡ (if ltb (f 0) (g 0) then Ordering.lt else (if ltb (g 0) (f 0) then Ordering.gt else o))
unfolding compare_loop
by_first f g m o h = ground arith

module _ (bytes : List ℕ) where
  -- The order of the rotations, without the wrap-around of the words.
  unfoldable pub order : ℕ → ℕ → Ordering
  order a b = compare_loop (cyc bytes a) (cyc bytes b) (length bytes) 0

  pub order-flip : (a b : ℕ) → order b a ≡ flip (order a b)
  unfolding order
  order-flip a b = compare_loop-flip (cyc bytes a) (cyc bytes b) (length bytes) 0

  pub order_trans :
      (a b c : ℕ) → order a b ≢ Ordering.gt → order b c ≢ Ordering.gt → order a c ≢ Ordering.gt
  unfolding order
  order_trans a b c = compare_loop_trans (cyc bytes a) (cyc bytes b) (cyc bytes c) (length bytes) 0

  pub order_self : (a : ℕ) → order a a ≡ Ordering.eq
  order_self a = fixed (order a a) (order-flip a a)
    where
      fixed : (o : Ordering) → o ≡ flip o → o ≡ Ordering.eq
      fixed o e = ground arith

  pub lt_of_le_lt :
      (a b c : ℕ) → order a b ≢ Ordering.gt → order b c ≡ Ordering.lt → order a c ≡ Ordering.lt
  lt_of_le_lt a b c p q = ground (arith, order-flip a c, order-flip b c, order_trans c a b)

  pub gt_of_gt_le :
      (a b c : ℕ) → order a c ≡ Ordering.gt → order a b ≢ Ordering.gt → order b c ≡ Ordering.gt
  gt_of_gt_le a b c p q = ground (arith, order_trans a b c)

  pub cyc-back :
      (s i : ℕ) → 0 < length bytes → cyc bytes (back (length bytes) s) (suc i) ≡ cyc bytes s i
  cyc-back s i h = ap (λ (t : ℕ). get_or bytes t 0) (back-suc (length bytes) s i h)

  -- Equal rotations agree at every place.
  pub order-eq :
      (a b : ℕ)
      → 0 < length bytes
      → order a b ≡ Ordering.eq
      → (i : ℕ) → cyc bytes a i ≡ cyc bytes b i
  unfolding order
  order-eq a b h e i =
      let n = length bytes in
      let at_rest = compare_loop-eq (cyc bytes a) (cyc bytes b) n 0 e (i % n) (mod-lt i h) in
      ap (λ (t : ℕ). get_or bytes t 0)
        (sym (add-mod-mod a i n) ∙ ap (λ (t : ℕ). (a + t) % n) (omega arith))
      ∙ at_rest
      ∙ ap (λ (t : ℕ). get_or bytes t 0)
          (ap (λ (t : ℕ). (b + t) % n) (omega arith) ∙ add-mod-mod b i n)

  pub first_byte : (s : ℕ) → cyc bytes (back (length bytes) s) 0 ≡ cyc bytes s (length bytes - 1)
  first_byte s =
      let n = length bytes in
      ap (λ (t : ℕ). get_or bytes t 0)
        (mod-add-mod (s + (n - 1)) n 0 ∙ ap (λ (t : ℕ). t % n) (omega arith))

  pub later_rounds :
      (m a b : ℕ)
      → length bytes ≡ suc m
      → cyc bytes (back (length bytes) a) 0 ≡ cyc bytes (back (length bytes) b) 0
      → compare_loop (cyc bytes (back (length bytes) a)) (cyc bytes (back (length bytes) b)) m 1
        ≡ order a b
  unfolding order
  later_rounds m a b size e =
      let f = cyc bytes a in
      let g = cyc bytes b in
      let n = length bytes in
      let end : (s : ℕ) → cyc bytes s (0 + m) ≡ cyc bytes (back n s) 0 =
        λ s. ap (cyc bytes s) (omega arith) ∙ sym (first_byte s) in
      let shifted : (s j : ℕ) → cyc bytes (back n s) (1 + j) ≡ cyc bytes s (0 + j) = λ s j.
        ap (cyc bytes (back n s)) (omega arith)
        ∙ cyc-back s j (omega arith)
        ∙ ap (cyc bytes s) (omega arith) in
      compare_loop-cong (cyc bytes (back n a)) (cyc bytes (back n b)) f g m 1 0 (λ j h. shifted a j)
        (λ j h. shifted b j)
      ∙ sym (compare_loop-last f g m 0 (end a ∙ e ∙ sym (end b)))
      ∙ ap (λ (t : ℕ). compare_loop f g t 0) (sym size)

  -- With its last byte in front, a rotation is compared by that byte first.
  pub order-back :
      (a b : ℕ)
      → 0 < length bytes
      → order (back (length bytes) a) (back (length bytes) b) ≡ (
          if ltb (cyc bytes (back (length bytes) a) 0) (cyc bytes (back (length bytes) b) 0)
          then Ordering.lt
          else (if ltb (cyc bytes (back (length bytes) b) 0) (cyc bytes (back (length bytes) a) 0)
              then Ordering.gt
              else order a b))
  unfolding order
  order-back a b h =
      let n = length bytes in
      let size : n ≡ suc (n - 1) = omega arith in
      ap (λ (t : ℕ). compare_loop (cyc bytes (back n a)) (cyc bytes (back n b)) t 0) size
      ∙ by_first (cyc bytes (back n a)) (cyc bytes (back n b)) (n - 1) (order a b)
          (later_rounds (n - 1) a b size)
