-- ===== src/Tests/Server.antt =====
-- A server for the runs: it answers every command with a status of 0 and a sweep with five columns.
use pound_drever_hall.Common.{ℕ, true, some, List, [], ◌∷◌, codes}
use pound_drever_hall.Common.Int.{pos, negsuc}
use pound_drever_hall.Python.Result.{ok}
use pound_drever_hall.Api.Transport.{World, Outside, complete, Array, matrix}
use pound_drever_hall.Tests.Numbers.{Real}

abbrev good : List ℕ
good = codes "status:0\n"

abbrev pub two_rows : Array Real
two_rows = matrix 5 (
    (some (negsuc 0) ∷ some (pos 1) ∷ some (pos 1) ∷ some (pos 50) ∷ some (pos 0) ∷ [])
    ∷ (some (pos 1) ∷ some (pos 1) ∷ some (pos 1) ∷ some (pos 20) ∷ some (pos 0) ∷ [])
    ∷ [])

abbrev pub server : Outside Real
server = record {
  connects = λ w. true;
  answer = λ sent packet. some good;
  sftp_get = λ w path. complete (codes "data");
  loadtxt = λ text. ok two_rows;
}

abbrev pub start : World
start = record { server_ip = codes "10.42.0.62"; server_port = pos 5555; sent = []; files = [] }
