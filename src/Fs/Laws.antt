-- ===== src/Fs/Laws.antt =====
-- What the question whether to overwrite a file does, in src/fs/bra_fs.cpp.
use br_archive.Prelude.{
  ℕ, ◌≡◌, ◌∙◌, refl, ap, sym, Bool, true, false, Bool-cases, inl, inr, ◌⊎◌, if◌then◌else◌, subst,
  List, [], ◌∷◌, ◌++◌, All, ◌==◌, ◌||◌, ◌&&◌, not, arith,
}
use br_archive.Fs.{FileSystem}
use br_archive.Fs.Files.{file_exists}
use br_archive.Fs.Overwrite.{
  to_lower, Answer, answer_of, Policy, ask, always_yes, always_no, ask_overwrite, ask_loop,
}

-- With the policy to always overwrite, the answer is yes, and nothing is read.
pub ask_overwrite-always_yes :
    (F : FileSystem) (s : F.State) (path : List ℕ) (single : Bool) (input : List ℕ)
    → ask_overwrite F s path always_yes single input
      ≡ record { overwrite = true; policy = always_yes; input = input }
unfolding ask_overwrite
ask_overwrite-always_yes F s path single input = elim (Bool-cases (file_exists F s path)) [
  | inl there ↦ rw there
  | inr free ↦ rw free
]

-- The characters that answer: `a` and `o` only where the question is not about a single file.
abbrev pub IsAnswer : Bool → ℕ → Type 0
IsAnswer single c = ((c ≡ b'y') ⊎ (c ≡ b'n')) ⊎ ((single ≡ false) × ((c ≡ b'a') ⊎ (c ≡ b'o')))

-- What an answer means: `y` and `n` for this file, `a` and `o` for all that follow too.
abbrev pub Means : Bool → ℕ → Answer → Type 0
Means single c r =
    (((c ≡ b'y') × (r.overwrite ≡ true) × (r.policy ≡ ask))
      ⊎ ((c ≡ b'n') × (r.overwrite ≡ false) × (r.policy ≡ ask)))
    ⊎ ((single ≡ false)
        × (((c ≡ b'a') × (r.overwrite ≡ true) × (r.policy ≡ always_yes))
            ⊎ ((c ≡ b'o') × (r.overwrite ≡ false) × (r.policy ≡ always_no))))

abbrev pub NoAnswers : Bool → List ℕ → Type 0
NoAnswers single = All (λ y. ¬ IsAnswer single (to_lower y))

-- The first answer decides, and what is behind it is left; without one it is no.
abbrev pub FirstDecides : Bool → List ℕ → Answer → Type 0
FirstDecides single input r =
    ((skipped : List ℕ) × (x : ℕ) × (input ≡ skipped ++ (x ∷ r.input))
      × NoAnswers single skipped
      × Means single (to_lower x) r)
    ⊎ (NoAnswers single input × (r.overwrite ≡ false) × (r.policy ≡ ask) × (r.input ≡ []))

-- The test in the loop.
abbrev answers : Bool → ℕ → Bool
answers single c = (c == b'y' || c == b'n') || (not single && (c == b'a' || c == b'o'))

answers-IsAnswer : (single : Bool) (c : ℕ) → answers single c ≡ true → IsAnswer single c
answers-IsAnswer true c h = ground arith
answers-IsAnswer false c h = ground arith

IsAnswer-answers : (single : Bool) (c : ℕ) → answers single c ≡ false → ¬ IsAnswer single c
IsAnswer-answers true c h a = ground arith
IsAnswer-answers false c h a = ground arith

-- The answer means what its character does, and the rest is left.
abbrev Meant : Bool → List ℕ → ℕ → Type 0
Meant single rest c =
    Means single c (answer_of single (c, rest)) × ((answer_of single (c, rest)).input ≡ rest)

answer_of-Means : (single : Bool) (c : ℕ) (rest : List ℕ) → IsAnswer single c → Meant single rest c
answer_of-Means true c rest (inl (inl e)) =
    subst (Meant true rest) (sym e) (inl (inl (refl, refl, refl)), refl)
answer_of-Means true c rest (inl (inr e)) =
    subst (Meant true rest) (sym e) (inl (inr (refl, refl, refl)), refl)
answer_of-Means true c rest (inr (several, _)) = absurd cc
answer_of-Means false c rest (inl (inl e)) =
    subst (Meant false rest) (sym e) (inl (inl (refl, refl, refl)), refl)
answer_of-Means false c rest (inl (inr e)) =
    subst (Meant false rest) (sym e) (inl (inr (refl, refl, refl)), refl)
answer_of-Means false c rest (inr (_, inl e)) =
    subst (Meant false rest) (sym e) (inr (refl, inl (refl, refl, refl)), refl)
answer_of-Means false c rest (inr (_, inr e)) =
    subst (Meant false rest) (sym e) (inr (refl, inr (refl, refl, refl)), refl)

skip :
    (single : Bool) (x : ℕ) (input : List ℕ) (r : Answer)
    → ¬ IsAnswer single (to_lower x)
    → FirstDecides single input r
    → FirstDecides single (x ∷ input) r
skip single x input r other (inl (skipped, y, split, before, means)) =
    inl (x ∷ skipped, y, ap (λ (l : List ℕ). x ∷ l) split, (other, before), means)
skip single x input r other (inr (none_there, refused, same, end)) =
    inr ((other, none_there), refused, same, end)

ask_loop-next :
    (single : Bool) (x : ℕ) (input : List ℕ)
    → ask_loop single (x ∷ input)
      ≡ (if answers single (to_lower x) then (to_lower x, input) else ask_loop single input)
unfolding ask_loop
ask_loop-next single x input = refl

ask_loop-FirstDecides :
    (single : Bool) (input : List ℕ)
    → FirstDecides single input (answer_of single (ask_loop single input))
unfolding ask_loop
ask_loop-FirstDecides true [] = inr (tt, refl, refl, refl)
ask_loop-FirstDecides false [] = inr (tt, refl, refl, refl)
ask_loop-FirstDecides single (x ∷ input) =
    let step = ask_loop-next single x input in
    let Decided : ℕ × List ℕ → Type 0 = λ r. FirstDecides single (x ∷ input) (answer_of single r) in
    elim (Bool-cases (answers single (to_lower x))) [
      | inl e ↦
          let (means, left) =
            answer_of-Means single (to_lower x) input (answers-IsAnswer single (to_lower x) e) in
          subst Decided (sym (step ∙ rw e refl))
            (inl ([], x, ap (λ (l : List ℕ). x ∷ l) (sym left), tt, means))
      | inr e ↦ subst Decided (sym (step ∙ rw e refl)) (
          skip single x input (answer_of single (ask_loop single input))
            (IsAnswer-answers single (to_lower x) e) (ask_loop-FirstDecides single input))
    ]

-- What the policy says of a file that is there.
abbrev pub Decides : Policy → Bool → List ℕ → Answer → Type 0
Decides always_yes single input r =
    (r.overwrite ≡ true) × (r.policy ≡ always_yes) × (r.input ≡ input)
Decides always_no single input r =
    (r.overwrite ≡ false) × (r.policy ≡ always_no) × (r.input ≡ input)
Decides ask single input r = FirstDecides single input r

-- A file that is there is overwritten, with nothing read, if the policy is to always do so, and not
-- if it is to never do so. If the policy is to ask, the first character of the input that is an
-- answer, small or capital, decides, and what is behind it is left: `y` overwrites and `n` does
-- not, and the policy stays; where the question is not about a single file, `a` overwrites and sets
-- the policy to always do so, and `o` does not and sets it to never do so. Without an answer in the
-- input the file is not overwritten.
pub ask_overwrite-asks :
    (F : FileSystem) (s : F.State) (path : List ℕ) (policy : Policy) (single : Bool)
    (input : List ℕ)
    → file_exists F s path ≡ true
    → Decides policy single input (ask_overwrite F s path policy single input)
unfolding ask_overwrite
ask_overwrite-asks F s path always_yes single input there = rw there (refl, refl, refl)
ask_overwrite-asks F s path always_no single input there = rw there (refl, refl, refl)
ask_overwrite-asks F s path ask single input there = rw there (ask_loop-FirstDecides single input)
