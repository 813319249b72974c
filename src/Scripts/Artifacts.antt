-- ===== src/Scripts/Artifacts.antt =====
-- core/hw/sim: `_make_artifact_dir`, of which run_bode.py, run_fir_freq.py and run_regression.py have
-- a copy each.
pub mod Laws
use pound_drever_hall.Common.{
  ℕ, zero, suc, ◌+◌, Bool, true, false, ◌&&◌, Option, none, some, List, [], ◌∷◌, ◌++◌, Text, codes,
  text_eq, if◌then◌else◌, length,
}
use pound_drever_hall.Common.Int.{pos}
use pound_drever_hall.Python.Number.{show_int}
use pound_drever_hall.Python.Result.{Result, ok, err, os_error, ◌>>=◌}

-- A path below the script's folder, as its parts.
abbrev pub FilePath : Type 0
FilePath = List Text

abbrev pub path_eq : FilePath → FilePath → Bool
path_eq [] [] = true
path_eq (s ∷ p) (t ∷ q) = text_eq s t && path_eq p q
path_eq _ _ = false

pub data Kind : Type 0 where
  folder file : Kind

-- What exists below the script's folder.
abbrev pub Tree : Type 0
Tree = List (FilePath × Kind)

unfoldable pub find : FilePath → Tree → Option Kind
find p [] = none
find p ((q, kind) ∷ tree) = if path_eq q p then some kind else find p tree

-- One step of `mkdir(parents=True, exist_ok=True)`.
unfoldable pub ensure : FilePath → Tree → Result Tree
ensure p tree = elim (find p tree) [
  | none ↦ ok ((p, folder) ∷ tree)
  | some folder ↦ ok tree
  | some file ↦ err os_error
]

-- HERE / "artifacts" / sim_name
abbrev pub base : Text → FilePath
base sim_name = codes "artifacts" ∷ sim_name ∷ []

unfoldable pub make_base : Text → Tree → Result Tree
make_base sim_name tree = ensure (codes "artifacts" ∷ []) tree >>= ensure (base sim_name)

-- base / f"{sim_name}_{n}"
unfoldable pub numbered : Text → ℕ → FilePath
numbered sim_name n = codes "artifacts" ∷ sim_name ∷ (sim_name ++ (b'_' ∷ show_int (pos n))) ∷ []

-- The `while True` from `n` on; `none` means that the fuel ran out.
unfoldable pub next_free : ℕ → Text → ℕ → Tree → Option (FilePath × Tree)
next_free zero sim_name n tree = none
next_free (suc fuel) sim_name n tree =
    let rest = next_free fuel sim_name (n + 1) tree in
    let d = numbered sim_name n in
    elim (find d tree) [ none ↦ some (d, (d, folder) ∷ tree) | some _ ↦ rest ]

-- One round for each thing that exists, and one more.
unfoldable pub make_artifact_dir : Text → Tree → Result (Option (FilePath × Tree))
make_artifact_dir sim_name tree =
    make_base sim_name tree >>= λ made. ok (next_free (suc (length made)) sim_name 1 made)
