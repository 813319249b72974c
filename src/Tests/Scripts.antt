-- ===== src/Tests/Scripts.antt =====
-- Runs of the theorems on the scripts that number folders, write tables and read traces.
use pound_drever_hall.Common.{
  ℕ, ◌≡◌, refl, false, none, some, List, [], ◌∷◌, ◌++◌, map, Text, codes, arith, length, All,
}
use pound_drever_hall.Common.Int.{pos, negsuc}
use pound_drever_hall.Python.Str.{file_lines, is_space, strip, lstrip, rstrip}
use pound_drever_hall.Python.Number.{int_of, scan}
use pound_drever_hall.Python.Pattern.{after_prefix, contains_text}
use pound_drever_hall.Python.Result.{ok}
use pound_drever_hall.Scripts.Artifacts.{
  FilePath, Tree, Kind, folder, find, ensure, make_base, make_artifact_dir,
}
use pound_drever_hall.Scripts.Artifacts.Laws.{IsNext, make_artifact_dir-IsNext}
use pound_drever_hall.Scripts.SineTable.{
  clamp, entry, entries, gen_qtr_wave, hex_digits_of, hex, hex_digits, table, write_table,
}
use pound_drever_hall.Scripts.SineTable.Laws.{write_table-lines}
use pound_drever_hall.Scripts.Trace.{
  decode, parse_trace_a, read_trace, trace_a_header, data_done_marker,
}
use pound_drever_hall.Scripts.Trace.Laws.{
  Sample, IsSample, render_sample, parse_trace_a-render, behind_header, data_block, matches,
  read_groups, read_trace-data_block,
}
use pound_drever_hall.Scripts.Bode.{
  Margins, Configs, all_codes, codes_of, put, sorted_set, dec_codes_all, plot_dec, put_entry,
  sorted_data, MarginRow, config_rows, margin_rows, Series, control_rates, margin_series,
}
use pound_drever_hall.Scripts.Bode.Diagrams.{
  MarginAxes, all_present, pm_limits, gm_limits, margin_axes,
}
use pound_drever_hall.Scripts.Bode.Diagrams.Laws.{margin_axes-no_note}
use pound_drever_hall.Scripts.Bode.Laws.{AllShown, margin_rows-AllShown}
use pound_drever_hall.Tests.Numbers.{Real, real_float, steep_float}

-- The folder of the runs is there, with the first run and a file in the place of the second.
abbrev earlier_runs : Tree
earlier_runs =
    (codes "artifacts" ∷ [], folder)
    ∷ (codes "artifacts" ∷ codes "bode" ∷ [], folder)
    ∷ (codes "artifacts" ∷ codes "bode" ∷ codes "bode_1" ∷ [], folder)
    ∷ (codes "artifacts" ∷ codes "bode" ∷ codes "bode_2" ∷ [], Kind.file)
    ∷ []

base_run : make_base (codes "bode") earlier_runs ≡ ok earlier_runs
unfolding make_base ensure find
base_run = refl

make_artifact_dir-IsNext_example :
    (d : FilePath) × (made : Tree) × (make_artifact_dir (codes "bode") earlier_runs
      ≡ ok (some (d, made)))
    × IsNext (codes "bode") 1 earlier_runs d made
make_artifact_dir-IsNext_example = make_artifact_dir-IsNext (codes "bode") earlier_runs base_run

-- The sine is so steep here that both entries are cut to the greatest.
table_run : write_table Real ⦃fl = steep_float⦄ (pos 2) 6 ≡ ok (codes "3F\n3F\n")
unfolding write_table gen_qtr_wave entries entry clamp table hex hex_digits_of
table_run = refl

write_table-lines_example :
    (vals : List ℕ) × (gen_qtr_wave Real ⦃fl = steep_float⦄ (pos 2) (pos 6) ≡ ok vals)
    × (map (scan 16 false 0) (file_lines (codes "3F\n3F\n")) ≡ map some vals)
    × All (λ line. length line ≡ hex_digits 6) (file_lines (codes "3F\n3F\n"))
write_table-lines_example =
    write_table-lines Real ⦃fl = steep_float⦄ (pos 2) 6 (omega arith) table_run

abbrev sample : Sample Real
sample = record {
  idx = codes "0";
  power_str = codes "-20";
  freq_str = codes "3";
  power = some (negsuc 19);
  freq = some (pos 3);
}

sample-IsSample : IsSample sample
unfolding int_of scan strip lstrip rstrip is_space
sample-IsSample = record {
  idx_run = (λ e. cc, (refl, tt));
  power_run = (λ e. cc, (refl, (refl, (refl, tt))));
  freq_run = (λ e. cc, (refl, tt));
  power_parse = refl;
  freq_parse = refl;
}

abbrev spa_file : Text
spa_file =
    codes "# Begin Setup\n# Begin TRACE A Data\nP_0=-20 , 3 MHz\n# Data Done\nP_1=7 , 4 MHz\n"

header_absent : contains_text trace_a_header (codes "# Begin Setup") ≡ false
unfolding contains_text after_prefix
header_absent = refl

spa_lines :
    file_lines (decode spa_file)
    ≡ (codes "# Begin Setup" ∷ [])
      ++ (trace_a_header
          ∷ (map render_sample (sample ∷ []) ++ (data_done_marker ∷ (codes "P_1=7 , 4 MHz" ∷ []))))
unfolding file_lines
spa_lines = refl

parse_trace_a-render_example :
    parse_trace_a spa_file ≡ ok (some (pos 3) ∷ [], some (negsuc 19) ∷ [])
parse_trace_a-render_example =
    parse_trace_a-render spa_file (codes "# Begin Setup" ∷ []) sample []
      (codes "P_1=7 , 4 MHz" ∷ []) (header_absent, tt) (sample-IsSample, tt) spa_lines

abbrev no_crossing : Margins Real
no_crossing = record { f_gc = none; pm_deg = none; f_pc = none; gm_db = some (some (pos 9)) }

-- The codes of the first configuration are out of order, and the second repeats one.
abbrev two_configs : Configs Real
two_configs =
    (codes "direct_adc", (codes "10", no_crossing) ∷ (codes "2", no_crossing) ∷ [])
    ∷ (codes "rotation", (codes "10", no_crossing) ∷ (codes "100", no_crossing) ∷ [])
    ∷ []

codes_run : dec_codes_all two_configs ≡ ok (pos 2 ∷ pos 10 ∷ pos 100 ∷ [])
unfolding dec_codes_all all_codes codes_of sorted_set put int_of scan strip lstrip rstrip is_space
codes_run = refl

middle_run : plot_dec none (pos 2 ∷ pos 10 ∷ pos 100 ∷ []) ≡ ok (pos 10)
unfolding plot_dec
middle_run = refl

rows_run :
    (rows : List (List (MarginRow Real))) × (margin_rows (some (pos 1000)) two_configs ≡ ok rows)
unfolding margin_rows config_rows sorted_data put_entry int_of scan strip lstrip rstrip is_space
rows_run = (_, refl)

margin_rows-AllShown_example :
    (series : List (Series Real)) × (margin_series (some (pos 1000)) two_configs ≡ ok series)
    × AllShown series rows_run.0
margin_rows-AllShown_example = margin_rows-AllShown (some (pos 1000)) two_configs rows_run.1

series_run :
    (series : List (Series Real)) × (margin_series (some (pos 1000)) two_configs ≡ ok series)
unfolding margin_series control_rates sorted_data put_entry int_of scan strip lstrip rstrip is_space
series_run = (_, refl)

margin_axes-no_note_example :
    (axes : MarginAxes Real) × (all_pm : List Real) × (all_gm : List Real) × (margin_axes
        two_configs
      ≡ ok axes)
    × (all_present (λ d. d.pm_deg) two_configs ≡ ok all_pm)
    × (all_present (λ d. d.gm_db) two_configs ≡ ok all_gm)
    × (pm_limits all_pm ≡ some axes.pm_limits)
    × (gm_limits all_gm ≡ some axes.gm_limits)
    × (axes.note ≡ false)
margin_axes-no_note_example = margin_axes-no_note (some (pos 1000)) two_configs refl series_run.1

read_trace-data_block_example :
    read_trace {F = Real} false (file_lines spa_file)
    ≡ read_groups (matches (data_block (behind_header (file_lines spa_file))))
read_trace-data_block_example = read_trace-data_block (file_lines spa_file)
