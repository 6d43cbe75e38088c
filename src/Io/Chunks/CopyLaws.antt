-- ===== src/Io/Chunks/CopyLaws.antt =====
-- What copying a file by chunks does, in src/io/lib_bra_io_file_chunks.c.
use br_archive.Prelude.{
  ℕ, zero, suc, ◌-◌, ◌^◌, ◌≡◌, ◌<◌, ◌≤◌, refl, ap, ◌∙◌, sym, subst, Bool, true, false, Bool-cases,
  inl, inr, some, List, [], ◌∷◌, ◌++◌, length, take, drop, leb, ◌==◌, arith, length-take,
  length-drop, length-append, take-append-drop, IsBytes, All-take, All-drop,
}
use br_archive.Prelude.Actions.{ok, refused}
use br_archive.Io.{open_at, close}
use br_archive.Io.FileLaws.{file_read_lem, file_read_short, file_write-Puts}
use br_archive.Io.Entries.{MetaEntry}
use br_archive.Io.Chunks.{max_chunk_size}
use br_archive.Io.Chunks.Copy.{Transfer, bra_min, copy_loop, copy_file, close_both}
use br_archive.Crc32c.{crc32c_table, crc32c_loop}
use br_archive.Crc32c.Bitwise.{crc32c_table-append}
use mathlib.Core.List.{append_assoc, append-nil}

-- The state with these bytes copied and this checksum.
abbrev pub transfer : List ℕ → List ℕ → List ℕ → MetaEntry → ℕ → Transfer
transfer out before after me crc = record {
  dst = some (open_at out []);
  src = open_at before after;
  me = some (record me { crc32 = crc });
}

crc32c_table-nil : (c : ℕ) → c < 2 ^ 32 → crc32c_table [] c ≡ c
unfolding crc32c_table crc32c_loop
crc32c_table-nil c h = omega arith

pub crc32c_table-lt : (bytes : List ℕ) (c : ℕ) → crc32c_table bytes c < 2 ^ 32
unfolding crc32c_table
crc32c_table-lt bytes c = omega arith

module _ (writes : ℕ → Bool) (w : (n : ℕ) → writes n ≡ true) (me : MetaEntry) where
  transfer-nil :
      (out before after : List ℕ) (crc : ℕ)
      → crc < 2 ^ 32
      → ok tt (transfer (out ++ []) (before ++ []) after me (crc32c_table [] crc))
        ≡ ok tt (transfer out before after me crc)
  transfer-nil out before after crc c = λ i.
      ok tt (transfer (append-nil out i) (append-nil before i) after me (crc32c_table-nil crc c i))

  ends :
      (fuel : ℕ) (out before after : List ℕ) (crc : ℕ)
      → crc < 2 ^ 32
      → copy_loop writes true fuel 0 (transfer out before after me crc)
        ≡ ok tt (transfer (out ++ []) (before ++ []) after me (crc32c_table [] crc))
  unfolding copy_loop
  ends zero out before after crc c = sym (transfer-nil out before after crc c)
  ends (suc fuel) out before after crc c = sym (transfer-nil out before after crc c)

  copy_round :
      (fuel left s : ℕ) (chunk out before after : List ℕ) (crc : ℕ)
      → bra_min max_chunk_size left ≡ s
      → length chunk ≡ s
      → 0 < s
      → (left == 0) ≡ false
      → copy_loop writes true (suc fuel) left (transfer out before (chunk ++ after) me crc)
        ≡ copy_loop writes true fuel
            (left - s)
            (transfer (out ++ chunk) (before ++ chunk) after me (crc32c_table chunk crc))
  unfolding copy_loop
  copy_round fuel left s chunk out before after crc m size positive more = rw (
    more,
    m,
    file_read_lem before chunk after s size positive,
    file_write-Puts writes chunk (omega arith) w out,
  )

  abbrev Copies : ℕ → List ℕ → Type 0
  Copies fuel content =
      (out before after : List ℕ) (crc : ℕ)
      → IsBytes content
      → crc < 2 ^ 32
      → copy_loop writes true fuel (length content) (transfer out before (content ++ after) me crc)
        ≡ ok tt (transfer (out ++ content) (before ++ content) after me (crc32c_table content crc))

  -- A first chunk, and what follows it.
  copy_parts :
      (fuel : ℕ) (chunk rest : List ℕ)
      → bra_min max_chunk_size (length (chunk ++ rest)) ≡ length chunk
      → 0 < length chunk
      → IsBytes chunk
      → IsBytes rest
      → Copies fuel rest
      → Copies (suc fuel) (chunk ++ rest)
  copy_parts fuel chunk rest m positive hc hr copies out before after crc b c =
      let size = length-append chunk rest in
      let more : (length (chunk ++ rest) == 0) ≡ false = ground (arith, size) in
      let left : length (chunk ++ rest) - length chunk ≡ length rest = omega (arith, size) in
      let round =
        copy_round fuel (length (chunk ++ rest)) (length chunk) chunk out before (rest ++ after) crc
          m refl positive more in
      rw (
        append_assoc chunk rest after,
        round,
        left,
        copies (out ++ chunk) (before ++ chunk) after (crc32c_table chunk crc) hr
            (crc32c_table-lt chunk crc),
        append_assoc out chunk rest,
        append_assoc before chunk rest,
        crc32c_table-append chunk rest crc hc hr,
      )

  copy_loop_lem : (fuel : ℕ) (content : List ℕ) → length content ≤ fuel → Copies fuel content
  copy_loop_lem zero [] h out before after crc b c = ends zero out before after crc c
  copy_loop_lem (suc fuel) [] h out before after crc b c = ends (suc fuel) out before after crc c
  copy_loop_lem zero (x ∷ content) h out before after crc b c = absurd (omega arith)
  copy_loop_lem (suc fuel) (x ∷ content) h out before after crc b c =
      let all : List ℕ = x ∷ content in
      let s = bra_min max_chunk_size (length all) in
      let bounds : (0 < s) × (s ≤ length all) = ground arith in
      let chunk_size : length (take s all) ≡ s = omega (arith, length-take s all, bounds.1) in
      let split = take-append-drop s all in
      subst (Copies (suc fuel)) split
        (copy_parts fuel (take s all) (drop s all)
          (ap (λ (l : List ℕ). bra_min max_chunk_size (length l)) split ∙ sym chunk_size)
          (omega (arith, chunk_size, bounds.0)) (All-take (λ v. v < 256) s all b)
          (All-drop (λ v. v < 256) s all b)
          (copy_loop_lem fuel (drop s all) (omega (arith, length-drop s all, bounds.0))))
        out before after crc b c

  -- Where fwrite succeeds, copying as many bytes as there are before the end of the source puts
  -- just these bytes at the end of the destination, leaves the source behind them, and takes the
  -- entry's checksum on by them. The loop ends.
  pub copy_file_lem :
      (content out before after : List ℕ) (crc : ℕ)
      → IsBytes content
      → crc < 2 ^ 32
      → copy_file writes true true (length content) (transfer out before (content ++ after) me crc)
        ≡ ok tt (transfer (out ++ content) (before ++ content) after me (crc32c_table content crc))
  unfolding copy_file
  copy_file_lem content out before after crc b c =
      rw (copy_loop_lem (length content) content (omega arith) out before after crc b c)

  read_short :
      (fuel left s : ℕ) (content out before : List ℕ) (crc : ℕ)
      → bra_min max_chunk_size left ≡ s
      → length content < s
      → (left == 0) ≡ false
      → (t : Transfer) × (copy_loop writes true (suc fuel) left (transfer out before content me crc)
          ≡ refused t)
  unfolding copy_loop
  read_short fuel left s content out before crc m short more = (
    record (transfer out before content me crc) { src = close (open_at before content) },
    rw (more, m, file_read_short before content s short),
  )

  loop_short :
      (fuel left : ℕ) (content out before : List ℕ) (crc : ℕ)
      → left ≤ fuel
      → length content < left
      → (t : Transfer) × (copy_loop writes true fuel left (transfer out before content me crc)
          ≡ refused t)
  loop_short zero left content out before crc h short = absurd (omega arith)
  loop_short (suc fuel) left content out before crc h short =
      let s = bra_min max_chunk_size left in
      let bounds : (0 < s) × (s ≤ left) = ground arith in
      let more : (left == 0) ≡ false = ground arith in
      elim (Bool-cases (leb s (length content))) [
        | inl enough ↦
            let chunk_size : length (take s content) ≡ s = ground (arith, length-take s content) in
            let (t, e) =
              loop_short fuel (left - s) (drop s content) (out ++ take s content)
                (before ++ take s content) (crc32c_table (take s content) crc) (omega arith)
                (ground (arith, length-drop s content)) in
            let round =
              copy_round fuel left s (take s content) out before (drop s content) crc refl
                chunk_size bounds.0 more in
            (
              t,
              subst
                  (λ (l : List ℕ).
                    copy_loop writes true (suc fuel) left (transfer out before l me crc)
                    ≡ refused t)
                  (take-append-drop s content) (round ∙ e),
            )
        | inr few ↦ read_short fuel left s content out before crc refl (ground arith) more
      ]

  -- Where fwrite succeeds and the source ends before `data_size` bytes, the copy returns false with
  -- both files closed.
  pub copy_file_short :
      (data_size : ℕ) (content out before : List ℕ) (crc : ℕ)
      → length content < data_size
      → (t : Transfer) × (copy_file writes true true data_size (transfer out before content me crc)
          ≡ refused (close_both t))
  unfolding copy_file
  copy_file_short data_size content out before crc short =
      let (t, e) = loop_short data_size data_size content out before crc (omega arith) short in
      (t, rw e)
