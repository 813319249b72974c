-- ===== src/Scripts/Runs.antt =====
-- core/hw/sim: what the runners share: the call of make, and the most recent results.
use pound_drever_hall.Common.{ℕ, List, [], ◌∷◌, ◌++◌, Text, ltb, if◌then◌else◌}
use pound_drever_hall.Common.Int.{ℤ, pos, eq_ℤ}
use pound_drever_hall.Python.Result.{Result, ok, err, exit_code, system_exit}
use pound_drever_hall.Scripts.Artifacts.{FilePath}

-- `subprocess.run` of make with these arguments and these additions to the environment, by its
-- return code.
abbrev pub Make : Type 0
Make = List Text → List (Text × Text) → ℤ

-- if ret.returncode != 0: sys.exit(ret.returncode)
abbrev pub check_return : ℤ → Result (Unit {0})
check_return returncode = if eq_ℤ returncode (pos 0) then ok tt else err (exit_code returncode)

-- The first of `sorted(candidates, key=mtime, reverse=True)`: a sort that is stable keeps equal
-- times in their order, so it is the first of the latest.
abbrev latest : FilePath × ℕ → List (FilePath × ℕ) → FilePath × ℕ
latest best [] = best
latest best (c ∷ cs) = latest (if ltb best.1 c.1 then c else best) cs

unfoldable pub newest : Text → List (FilePath × ℕ) → Result FilePath
newest message [] = err (system_exit message)
newest message (c ∷ cs) = ok (latest c cs).0

-- name=value
abbrev pub setting : Text → Text → Text
setting name value = name ++ (b'=' ∷ value)
