-- ===== src/Programs/Restoring.antt =====
-- What src/prog/unbra.cpp and src/prog/bra_sfx.cpp restore from the entries of an archive.
use br_archive.Prelude.{
  ℕ, ◌≡◌, refl, ap, Bool, true, Option, some, none, List, [], ◌∷◌, ◌++◌, length, All, done,
}
use br_archive.Prelude.Actions.{Step, ok, and_then, pure}
use br_archive.TreeDir.{empty_node, path_length, reconstruct_path, root, destroy, destroy_siblings}
use br_archive.Archive.{Ctx, close_f, ctx_close}
use br_archive.Archive.Extracting.{Session}
use br_archive.Archive.Decoding.{at_place, at_session}
use br_archive.Archive.Decoding.Many.{Item, IsItem, entries, restored, decode_all_lem}
use br_archive.Archive.Headers.{ctx_at}
use br_archive.Archive.SelfExtracting.{opened}
use br_archive.Fs.{FileSystem}
use br_archive.Fs.Files.{dir_exists}
use br_archive.Fs.Overwrite.{always_yes}
use br_archive.Programs.Unbra.{extract_all, close_archive, change_dir, enter_output, leave_output}

-- The disk behind run_prog_end.
abbrev pub left : (G : FileSystem) → G.State → List ℕ → G.State
left G disk path = elim (G.set_current_path disk path) [ none ↦ disk | some disk' ↦ disk' ]

-- The root has the empty path.
root_path :
    (malloc : ℕ → Bool)
    → ((n : ℕ) → malloc n ≡ true)
    → reconstruct_path malloc (empty_node ∷ []) root ≡ done []
unfolding reconstruct_path path_length
root_path malloc m = rw (m 1)

-- The archive's state behind its closing.
abbrev closed : ℕ → List ℕ → List ℕ → Ctx
closed num_files before rest =
    record (close_f (
      at_place (record opened { num_files = num_files })
        (record { nodes = empty_node ∷ []; num_nodes = 1 }) root before rest)) {
          tree = none;
          last_dir = none;
        }

closes :
    (num_files : ℕ) (c : Ctx) (before rest : List ℕ)
    → c
      ≡ at_place
          (record opened { num_files = num_files })
          (record { nodes = empty_node ∷ []; num_nodes = 1 })
          root
          before
          rest
    → ctx_close c ≡ ok tt (closed num_files before rest)
unfolding ctx_close destroy destroy_siblings
closes num_files c before rest e = rw e

module _ (G : FileSystem) (malloc writes : ℕ → Bool) (trans : List ℕ)
    (m : (n : ℕ) → malloc n ≡ true) (w : (n : ℕ) → writes n ≡ true)
    (create : G.State → List ℕ → G.State)
    (creates : (disk : G.State) (fn : List ℕ) → G.create_file disk fn ≡ some (create disk fn)) where
  enter_output_lem :
      (s : Session G) (path current : List ℕ) (disk : G.State)
      → dir_exists G s.disk path ≡ true
      → G.current_path s.disk ≡ some current
      → G.set_current_path s.disk path ≡ some disk
      → enter_output G path s ≡ ok current (record s { disk = disk })
  unfolding enter_output
  enter_output_lem s path current disk there here inside =
      let changed : change_dir G path s ≡ ok tt (record s { disk = disk }) =
        rw (inside, change_dir) in
      rw (there, here)
        (ap (λ (r : Step (Session G) (Unit {0})). and_then r (λ u. pure current)) changed)

  leave_output_lem :
      (s : Session G) (path : List ℕ)
      → leave_output G path s ≡ ok tt (record s { disk = left G s.disk path })
  unfolding leave_output
  leave_output_lem s path =
      elim (G.set_current_path s.disk path)
        as (λ (x : Option G.State).
          ◌≡◌ {A = Step (Session G) (Unit {0})}
            (elim x [ none ↦ ok tt s | some disk ↦ ok tt (record s { disk = disk }) ])
            (ok tt (record s { disk = elim x [ none ↦ s.disk | some disk ↦ disk ] }))) [
              | none ↦ refl
              | some disk ↦ refl
            ]

  -- From the entries on, both programs restore the files and close the archive.
  pub extract_all_lem :
      (failed : Session G → Step (Session G) ℕ) (s : Session G)
      (path current before after rest : List ℕ) (disk : G.State) (items : List Item)
      → after ≡ entries items ++ rest
      → All IsItem items
      → s.policy ≡ always_yes
      → dir_exists G s.disk path ≡ true
      → G.current_path s.disk ≡ some current
      → G.set_current_path s.disk path ≡ some disk
      → (s' : Session G) × (extract_all G malloc writes true trans path
            (length items)
            (close_archive G malloc writes true trans failed)
            (at_session G s
              (ctx_at (record opened { num_files = length items }) before after)
              s.archive.me)
          ≡ ok 0 s')
        × (s'.disk ≡ left G (restored G create items disk) current)
  extract_all_lem failed s path current before after rest disk items e v always there here inside =
      let n = length items in
      let start =
        at_session G s (ctx_at (record opened { num_files = n }) before after) s.archive.me in
      let entered = enter_output_lem start path current disk there here inside in
      let (s1, all, stored, ctx) =
        decode_all_lem G malloc writes trans m w (record opened { num_files = n })
          (record { nodes = empty_node ∷ []; num_nodes = 1 }) root (root_path malloc m) create
          creates items v (record start { disk = disk }) s.archive.me before rest always in
      let all' = rw (← e) at all in
      let closing = closes n s1.archive.ctx (before ++ entries items) rest ctx in
      (
        record s1 {
          archive = record s1.archive { ctx = closed n (before ++ entries items) rest };
          disk = left G s1.disk current;
        },
        rw (entered, all', leave_output_lem s1 current, closing),
        λ i. left G (stored i) current,
      )
