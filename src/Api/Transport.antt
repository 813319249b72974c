-- ===== src/Api/Transport.antt =====
-- client/pdh_api/api.py: the module's state, `execute_cmd`, `_ssh_fetch_csv` and `api_cmd`.
pub mod Laws
pub mod Address
use pound_drever_hall.Common.{
  ℕ, Bool, true, false, ◌&&◌, Option, none, some, List, [], ◌∷◌, ◌++◌, Text, codes, ltb, leb,
  text_eq, take, if◌then◌else◌,
}
use pound_drever_hall.Common.Int.{ℤ, pos, negsuc}
use pound_drever_hall.Python.Result
use pound_drever_hall.Python.Result.{
  Error, os_error, unicode_error, value_error, runtime_error, Result, ok, err,
}
use pound_drever_hall.Python.Float.{Float}
use pound_drever_hall.Api.Response.{Value, Response, parse_response, is_zero, show_value}

-- What `np.loadtxt` returns: its rows, which are numbers if there is one column.
pub data Array (F : Type 0) : Type 0 where
  vector : List F → Array F
  matrix : ℕ → List (List F) → Array F

-- A command on the wire, with the address that it goes to.
pub record Packet : Type 0 where
  pub ip : Text
  pub port : ℤ
  pub payload : List ℕ

-- The module's globals, all that it has sent, and the files that it has fetched.
pub record World : Type 0 where
  pub server_ip : Text
  pub server_port : ℤ
  pub sent : List Packet
  pub files : List (Text × Text)

-- An SFTP download. What arrives is written to the local file, also of a transfer that breaks.
pub data Transfer : Type 0 where
  refused : Transfer
  broken complete : Text → Transfer

-- What lies behind `socket`, `paramiko` and `numpy.loadtxt`. The peer may answer by all that it
-- has been sent; `none` is a failed transmission or a timeout.
pub record Outside (F : Type 0) : Type 0 where
  pub connects : World → Bool
  pub answer : List Packet → Packet → Option (List ℕ)
  pub sftp_get : World → Text → Transfer
  pub loadtxt : Text → Result (Array F)

-- A call that reads and changes the world, and returns or raises.
abbrev pub Api : Type 0 → Type 0
Api A = World → Result A × World

infixl 5 ◌>>=◌
abbrev pub ◌>>=◌ : {A B : Type 0} → Api A → (A → Api B) → Api B
◌>>=◌ m f w = let (r, w') = m w in elim r [ ok a ↦ f a w' | err e ↦ (err e, w') ]

abbrev pub return : {A : Type 0} → A → Api A
return a w = (ok a, w)

-- A computation that may raise, as a step of a call.
abbrev pub lift : {A : Type 0} → Result A → Api A
lift r w = (r, w)

abbrev pub raise : {A : Type 0} → Error → Api A
raise e w = (err e, w)

abbrev is_ascii : Text → Bool
is_ascii [] = true
is_ascii (c ∷ s) = ltb c 128 && is_ascii s

-- `bytes.decode("ascii", errors="replace")`
abbrev decode : List ℕ → Text
decode [] = []
decode (b ∷ bs) = (if ltb b 128 then b else 0xfffd) ∷ decode bs

abbrev local_data_dir : Text
local_data_dir = codes "data"

-- `os.path.join(LOCAL_DATA_DIR, name)`
abbrev pub local_path : Text → Text
local_path name = local_data_dir ++ (b'/' ∷ name)

-- Opening a file for writing makes it or replaces what it held.
abbrev pub write_file : Text → Text → List (Text × Text) → List (Text × Text)
write_file path content [] = (path, content) ∷ []
write_file path content ((p, c) ∷ files) =
    if text_eq p path then (p, content) ∷ files else (p, c) ∷ write_file path content files

abbrev pub file_at : Text → List (Text × Text) → Option Text
file_at path [] = none
file_at path ((p, c) ∷ files) =
    let rest = file_at path files in if text_eq p path then some c else rest

module _ {F : Type 0} ⦃fl : Float F⦄ (out : Outside F) where
  -- The connection is made before the command is encoded and sent, and one `recv` of at most 4096
  -- bytes is the whole answer.
  unfoldable pub execute_cmd : Text → Api (Response F)
  execute_cmd cmd w =
      let packet : Packet = record { ip = w.server_ip; port = w.server_port; payload = cmd } in
      let w' : World = record w { sent = w.sent ++ (packet ∷ []) } in
      if out.connects w
      then if is_ascii cmd
        then elim (out.answer w.sent packet) [
          | none ↦ (err os_error, w')
          | some raw ↦ (ok (parse_response (decode (take 4096 raw))), w')
        ]
        else (err unicode_error, w)
      else (err os_error, w)

  -- The local path of the fetched file; its content is in `files`.
  unfoldable pub ssh_fetch_csv : Text → Text → Api Text
  ssh_fetch_csv remote_path local_name w = elim (out.sftp_get w remote_path) [
    | refused ↦ (err os_error, w)
    | broken content ↦
        let path = local_path local_name in
        (err os_error, record w { files = write_file path content w.files })
    | complete content ↦
        let path = local_path local_name in
        (ok path, record w { files = write_file path content w.files })
  ]

  -- `np.loadtxt(local, delimiter=",")`
  unfoldable pub load_csv : Text → Api (Array F)
  load_csv path w = elim (file_at path w.files) [
    | none ↦ (err os_error, w)
    | some content ↦ (out.loadtxt content, w)
  ]

module _ {F R : Type 0} ⦃fl : Float F⦄ where
  -- The checks of the decorator, over how the result's `status` is read: `none` where it has no
  -- such field.
  unfoldable pub check_status : Text → (R → Option (Value F)) → Result R → Result R
  check_status name status (err e) = err e
  check_status name status (ok result) = elim (status result) [
    | none ↦ err (runtime_error (name ++ codes ": result has no status field"))
    | some v ↦
        if is_zero v
        then ok result
        else err (runtime_error (name ++ (codes ": server returned status=" ++ show_value v)))
  ]

  unfoldable pub api_cmd : Text → (R → Option (Value F)) → Api R → Api R
  api_cmd name status fn w = let (result, w') = fn w in (check_status name status result, w')
