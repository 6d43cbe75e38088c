-- ===== src/Archive/Decoding/Many.antt =====
-- What the programs extract of an archive of stored files, in src/io/lib_bra_io_file_ctx.c.
use br_archive.Prelude.{
  ℕ, ◌≡◌, ◌<◌, ◌^◌, refl, sym, ◌∙◌, Bool, true, false, some, List, [], ◌∷◌, ◌++◌, length, done,
  IsBytes, All,
}
use br_archive.Prelude.Actions.{ok}
use br_archive.Io.Entries.{MetaEntry}
use br_archive.TreeDir.{Tree, reconstruct_path}
use br_archive.FileNames.{validate_filename}
use br_archive.Fs.{FileSystem}
use br_archive.Fs.Overwrite.{always_yes, ask_overwrite}
use br_archive.Fs.Laws.{ask_overwrite-always_yes}
use br_archive.Archive.{Ctx}
use br_archive.Archive.Extracting.{Session, decode_all}
use br_archive.Archive.Encoding.{IsFileName, archived}
use br_archive.Archive.Decoding.{at_place, at_session}
use br_archive.Archive.Decoding.Stored.{extracted, decode_stored}
use mathlib.Core.List.{append_assoc, append-nil}

-- A file of the top directory: its name and content.
abbrev pub Item : Type 0
Item = List ℕ × List ℕ

-- What the archive can take, and the extraction accepts.
pub record IsItem (item : Item) : Type 0 where
  pub named : IsFileName [] item.0
  pub valid : validate_filename item.0 (length item.0) ≡ true
  pub bytes : IsBytes item.1
  pub fits : length item.1 < 2 ^ 64

-- The entries of these files.
abbrev pub entries : List Item → List ℕ
entries [] = []
entries ((name, content) ∷ items) = archived name name content ++ entries items

-- The disk with these files stored, one behind the other.
abbrev pub restored :
    (G : FileSystem) → (G.State → List ℕ → G.State) → List Item → G.State → G.State
restored G create [] disk = disk
restored G create ((name, content) ∷ items) disk =
    restored G create items (G.store_file (create disk name) name content)

module _ (G : FileSystem) (malloc writes : ℕ → Bool) (trans : List ℕ)
    (m : (n : ℕ) → malloc n ≡ true) (w : (n : ℕ) → writes n ≡ true) (c : Ctx) (tree : Tree)
    (node : ℕ) (path : reconstruct_path malloc tree.nodes node ≡ done [])
    (create : G.State → List ℕ → G.State)
    (creates : (disk : G.State) (fn : List ℕ) → G.create_file disk fn ≡ some (create disk fn)) where
  abbrev Extracts : List Item → Type 0
  Extracts items =
      (s : Session G) (me : MetaEntry) (before rest : List ℕ)
      → s.policy ≡ always_yes
      → (s' : Session G) × (decode_all G malloc writes true trans (length items)
            (at_session G s (at_place c tree node before (entries items ++ rest)) me)
          ≡ ok tt s')
        × (s'.disk ≡ restored G create items s.disk)
        × (s'.archive.ctx ≡ at_place c tree node (before ++ entries items) rest)

  decode_item :
      (name content : List ℕ) (items : List Item)
      → IsItem (name, content)
      → Extracts items
      → Extracts ((name, content) ∷ items)
  unfolding decode_all
  decode_item name content items v rec s me before rest always =
      let law = ask_overwrite-always_yes G s.disk name false s.input in
      let allowed : (ask_overwrite G s.disk name s.policy false s.input).overwrite ≡ true =
        rw (always, law) refl in
      let kept : (ask_overwrite G s.disk name s.policy false s.input).policy ≡ always_yes =
        rw (always, law) refl in
      let put = archived name name content in
      let after = entries items ++ rest in
      let step =
        decode_stored G malloc writes trans m w (create s.disk name) c tree node [] name content
          v.named v.bytes v.fits path v.valid s allowed (creates s.disk name) me before after in
      let next =
        extracted G s (create s.disk name) c tree node [] name content (before ++ put) after in
      let (s', all, disk, ctx) = rec next next.archive.me (before ++ put) rest kept in
      (
        s',
        rw (append_assoc put (entries items) rest, step) all,
        disk,
        ctx ∙ (λ i. at_place c tree node (append_assoc before put (entries items) i) rest),
      )

  pub decode_all_lem : (items : List Item) → All IsItem items → Extracts items
  unfolding decode_all
  decode_all_lem [] v s me before rest always = (
    at_session G s (at_place c tree node before rest) me,
    refl,
    refl,
    λ i. at_place c tree node (sym (append-nil before) i) rest,
  )
  decode_all_lem (item ∷ items) v s me before rest always =
      decode_item item.0 item.1 items v.0 (decode_all_lem items v.1) s me before rest always
