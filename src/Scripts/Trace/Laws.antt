-- ===== src/Scripts/Trace/Laws.antt =====
-- The lines that count, and that a printed trace is read back.
use pound_drever_hall.Common.{
  ℕ, ◌≡◌, refl, ap, ◌∙◌, true, false, none, some, List, [], ◌∷◌, ◌++◌, map, Text, codes,
  if◌then◌else◌, arith, All,
}
use pound_drever_hall.Python.Str.{is_space, strip, lstrip, rstrip, file_lines}
use pound_drever_hall.Python.Pattern.{is_digit, after_prefix, starts_with, contains_text}
use pound_drever_hall.Python.Result.{Result, ok, ◌>>=◌}
use pound_drever_hall.Python.Float.{Float}
use pound_drever_hall.Scripts.Trace.{
  Points, trace_a_header, data_done_marker, decode, read_float, append_point, read_trace,
  parse_trace_a,
}
use pound_drever_hall.Scripts.Trace.Line.{is_number_char, search}
use pound_drever_hall.Scripts.Trace.Line.Laws.{
  IsRun, render, search-render, render-contains_text, starts_with-strip,
}

-- The lines behind the first header.
pub behind_header : List Text → List Text
behind_header [] = []
behind_header (line ∷ lines) =
    let rest = behind_header lines in if contains_text trace_a_header line then lines else rest

-- The lines up to the marker, with those that repeat the header left out.
pub data_block : List Text → List Text
data_block [] = []
data_block (line ∷ lines) =
    let rest = data_block lines in
    if contains_text trace_a_header line
    then rest
    else if starts_with data_done_marker (strip line)
    then []
    else line ∷ rest

-- The groups of the lines that match.
pub matches : List Text → List (Text × Text)
matches [] = []
matches (line ∷ lines) = elim (search line) [
  | none ↦ matches lines
  | some groups ↦ groups ∷ matches lines
]

-- A measurement in the texts of its line, and the numbers that `float` makes of them.
pub record Sample (F : Type 0) : Type 0 where
  pub idx : Text
  pub power_str : Text
  pub freq_str : Text
  pub power : F
  pub freq : F

module _ {F : Type 0} ⦃fl : Float F⦄ where
  -- All groups as numbers, the power first.
  pub read_groups : List (Text × Text) → Result (Points F)
  read_groups [] = ok ([], [])
  read_groups ((power_str, freq_str) ∷ groups) = read_float power_str >>= λ power.
      read_float freq_str >>= λ freq.
      read_groups groups >>= λ (freqs, powers). ok (freq ∷ freqs, power ∷ powers)

  read_trace-inside :
      (lines : List Text) → read_trace true lines ≡ read_groups (matches (data_block lines))
  unfolding read_trace append_point data_block matches read_groups
  read_trace-inside [] = refl
  read_trace-inside (line ∷ lines) = ground (arith, read_trace-inside lines)

  -- The loop with its flag reads what matches in the lines between the first header and the next
  -- marker.
  pub read_trace-data_block :
      (lines : List Text)
      → read_trace false lines ≡ read_groups (matches (data_block (behind_header lines)))
  unfolding read_trace behind_header data_block matches read_groups
  read_trace-data_block [] = refl
  read_trace-data_block (line ∷ lines) =
      ground (arith, read_trace-inside lines, read_trace-data_block lines)

  abbrev pub render_sample : Sample F → Text
  render_sample m = render m.idx m.power_str m.freq_str

  pub record IsSample (m : Sample F) : Type 0 where
    pub idx_run : IsRun is_digit m.idx
    pub power_run : IsRun is_number_char m.power_str
    pub freq_run : IsRun is_number_char m.freq_str
    pub power_parse : fl.parse m.power_str ≡ some m.power
    pub freq_parse : fl.parse m.freq_str ≡ some m.freq

  -- A line of a sample appends its numbers.
  read_trace-sample :
      (m : Sample F) (lines : List Text)
      → IsSample m
      → read_trace true (render_sample m ∷ lines)
        ≡ (read_trace true lines >>= λ (freqs, powers). ok (m.freq ∷ freqs, m.power ∷ powers))
  unfolding read_trace append_point is_space
  read_trace-sample m lines s = rw (
    render-contains_text (codes " Begin TRACE A Data") m.idx m.power_str m.freq_str s.idx_run
        s.power_run s.freq_run,
    starts_with-strip b'#' b'P' (codes " Data Done") _ refl refl,
    search-render m.idx m.power_str m.freq_str s.idx_run s.power_run s.freq_run,
    append_point,
    read_float,
    s.power_parse,
    read_float,
    s.freq_parse,
  )

  read_trace-samples :
      (samples : List (Sample F)) (rest : List Text)
      → All IsSample samples
      → read_trace true (map render_sample samples ++ (data_done_marker ∷ rest))
        ≡ ok (map (λ m. m.freq) samples, map (λ m. m.power) samples)
  unfolding read_trace contains_text after_prefix strip lstrip rstrip is_space
  read_trace-samples [] rest s = refl
  read_trace-samples (m ∷ samples) rest (s, ss) =
      read_trace-sample m (map render_sample samples ++ (data_done_marker ∷ rest)) s
      ∙ ap (λ r. r >>= λ (freqs, powers). ok (m.freq ∷ freqs, m.power ∷ powers))
          (read_trace-samples samples rest ss)

  read_trace-before :
      (before rest : List Text)
      → All (λ line. contains_text trace_a_header line ≡ false) before
      → read_trace {F = F} false (before ++ (trace_a_header ∷ rest)) ≡ read_trace {F = F} true rest
  unfolding read_trace contains_text after_prefix
  read_trace-before [] rest p = refl
  read_trace-before (line ∷ before) rest (p, ps) = rw (p, read_trace-before before rest ps)

  -- A file whose lines are some without the header of the trace, the header, the printed lines of at
  -- least one sample, the marker, and whatever follows, is read as the frequencies and the powers
  -- of the samples.
  pub parse_trace_a-render :
      (bytes : List ℕ) (before : List Text) (m : Sample F) (samples : List (Sample F))
      (rest : List Text)
      → All (λ line. contains_text trace_a_header line ≡ false) before
      → All IsSample (m ∷ samples)
      → file_lines (decode bytes)
        ≡ before
          ++ (trace_a_header ∷ (map render_sample (m ∷ samples) ++ (data_done_marker ∷ rest)))
      → parse_trace_a bytes ≡ ok (map (λ m. m.freq) (m ∷ samples), map (λ m. m.power) (m ∷ samples))
  unfolding parse_trace_a
  parse_trace_a-render bytes before m samples rest p s e =
      rw (e, read_trace-before before _ p, read_trace-samples (m ∷ samples) rest s)
