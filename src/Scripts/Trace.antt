-- ===== src/Scripts/Trace.antt =====
-- sim/linewidth/process_spa.py: trace A of a spectrum file, and the table that is made of it.
pub mod Line
pub mod Laws
use pound_drever_hall.Common.{
  ℕ, Bool, true, false, Option, none, some, List, [], ◌∷◌, ◌++◌, map, Text, codes, ltb,
  if◌then◌else◌,
}
use pound_drever_hall.Python.Str.{strip, file_lines}
use pound_drever_hall.Python.Pattern.{starts_with, contains_text}
use pound_drever_hall.Python.Result.{Result, ok, err, bad_literal, runtime_error, ◌>>=◌}
use pound_drever_hall.Python.Float.{Float}
use pound_drever_hall.Fir.Design.{num}
use pound_drever_hall.Scripts.Trace.Line.{search}

abbrev pub trace_a_header : Text
trace_a_header = codes "# Begin TRACE A Data"

abbrev pub data_done_marker : Text
data_done_marker = codes "# Data Done"

-- What is read with encoding="ascii", errors="ignore".
abbrev pub decode : List ℕ → Text
decode [] = []
decode (b ∷ bytes) = if ltb b 128 then b ∷ decode bytes else decode bytes

abbrev freq_header : Bool → Text
freq_header hz = if hz then codes "freq_Hz" else codes "freq_MHz"

-- freqs_mhz and powers_dbm
abbrev pub Points : Type 0 → Type 0
Points F = List F × List F

module _ {F : Type 0} ⦃fl : Float F⦄ where
  -- `float(s)`
  abbrev pub read_float : Text → Result F
  read_float s = elim (fl.parse s) [ none ↦ err (bad_literal s) | some x ↦ ok x ]

  -- What a line of the block appends; a line that does not match appends nothing.
  unfoldable pub append_point : Option (Text × Text) → Result (Points F) → Result (Points F)
  append_point none rest = rest
  append_point (some (power_str, freq_str)) rest = read_float power_str >>= λ power.
      read_float freq_str >>= λ freq. rest >>= λ (freqs, powers). ok (freq ∷ freqs, power ∷ powers)

  -- The loop over the lines, with `in_trace` as it stands before them.
  unfoldable pub read_trace : Bool → List Text → Result (Points F)
  read_trace in_trace [] = ok ([], [])
  read_trace in_trace (line ∷ lines) =
      let inside = read_trace true lines in
      let outside = read_trace false lines in
      if contains_text trace_a_header line
      then inside
      else if in_trace
      then if starts_with data_done_marker (strip line)
        then ok ([], [])
        else append_point (search line) inside
      else outside

  abbrev not_empty : Points F → Result (Points F)
  not_empty ([], powers) = err (runtime_error (codes "No TRACE A data found in file."))
  not_empty (f ∷ freqs, powers) = ok (f ∷ freqs, powers)

  unfoldable pub parse_trace_a : List ℕ → Result (Points F)
  parse_trace_a bytes = read_trace false (file_lines (decode bytes)) >>= not_empty

  -- list(zip(freqs, powers_dbm)), with the frequencies in Hz if they are asked for
  unfoldable pub zip : List F → List F → List (F × F)
  zip (f ∷ freqs) (p ∷ powers) = (f, p) ∷ zip freqs powers
  zip _ _ = []

  unfoldable pub rows : Bool → Points F → List (F × F)
  rows hz (freqs_mhz, powers_dbm) =
      zip (if hz then map (λ f. fl.mul f (num 1_000_000)) freqs_mhz else freqs_mhz) powers_dbm

  -- The rows behind the header, each with the end of a line.
  abbrev csv_lines : Text → List (F × F) → Text
  csv_lines end [] = []
  csv_lines end ((f, p) ∷ rest) = fl.repr f ++ (b',' ∷ (fl.repr p ++ (end ++ csv_lines end rest)))

  -- What goes to the file, whose lines `csv.writer` ends by "\r\n", or else to the terminal.
  unfoldable pub csv_text : Text → Bool → Points F → Text
  csv_text end hz points =
      freq_header hz ++ (codes ",power_dBm" ++ (end ++ csv_lines end (rows hz points)))
