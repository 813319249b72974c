-- ===== src/Scripts/Regression.antt =====
-- core/hw/sim/run_regression.py: one run of the regression test.
use pound_drever_hall.Common.{List, [], ◌∷◌, ◌++◌, Option, none, some, Text, codes}
use pound_drever_hall.Common.Int.{ℤ}
use pound_drever_hall.Python.Result.{Error, Result, ok, err}
use pound_drever_hall.Scripts.Artifacts.{FilePath, Tree, file, make_artifact_dir}
use pound_drever_hall.Scripts.Runs.{Make, setting}

-- What run_info.json holds.
pub record Info : Type 0 where
  pub sim : Text
  pub started : Text
  pub finished : Text
  pub exit_code : ℤ

abbrev regression_arguments : Text → Text → Text → List Text
regression_arguments sim makefiles python =
    codes "make"
    ∷ codes "-f"
    ∷ codes "Makefile.cocotb"
    ∷ setting (codes "SIM") sim
    ∷ setting (codes "COCOTB_MAKEFILES") makefiles
    ∷ setting (codes "PYTHON_BIN") python
    ∷ []

abbrev regression_info : Make → Text → Text → Text → Text → Text → Info
regression_info make sim makefiles python started finished = record {
  sim = sim;
  started = started;
  finished = finished;
  exit_code = make (regression_arguments sim makefiles python) ((codes "SIM", sim) ∷ []);
}

-- What `main` leaves behind: the file of the run with what it holds, the tree, and the exit.
abbrev record_run : Info → Option (FilePath × Tree) → Option (FilePath × Info × Tree × Error)
record_run info none = none
record_run info (some (dir, tree)) =
    let path = dir ++ (codes "run_info.json" ∷ []) in
    some (path, info, (path, file) ∷ tree, Error.exit_code info.exit_code)

unfoldable pub run_regression :
    Make
    → (sim makefiles python started finished : Text) → Tree
    → Result (Option (FilePath × Info × Tree × Error))
run_regression make sim makefiles python started finished tree =
    elim (make_artifact_dir (codes "pdh_core") tree) [
      | err e ↦ err e
      | ok made ↦ ok (record_run (regression_info make sim makefiles python started finished) made)
    ]
