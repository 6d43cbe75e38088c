-- ===== src/Programs.antt =====
-- src/prog: what the programs do behind their arguments. Their output is left out.
pub mod Bra
pub mod Unbra
pub mod Archiving
pub mod Restoring
pub mod RoundTrip
pub mod SelfExtracting
mod Tests
use br_archive.Prelude.{ℕ}
use br_archive.Prelude.Actions.{Action, Step, ok, refused, invalid, endless}

-- A step of a program, which on a failure ends it.
abbrev pub else_exit : {S A : Type 0} → Step S A → (S → Step S ℕ) → (A → Action S ℕ) → Step S ℕ
else_exit (ok a s) exit k = k a s
else_exit (refused s) exit k = exit s
else_exit invalid exit k = invalid
else_exit endless exit k = endless

abbrev pub or_exit : {S A : Type 0} → Action S A → (S → Step S ℕ) → (A → Action S ℕ) → Action S ℕ
or_exit act exit k s = else_exit (act s) exit k

abbrev pub exit_code : {S : Type 0} → ℕ → S → Step S ℕ
exit_code = ok
