-- ===== src/Tests/Filters.antt =====
-- Runs of the theorems on the scripts that make and simulate filters.
use pound_drever_hall.Common.{◌≡◌, ◌≢◌, refl, none, some, [], map, codes, length}
use pound_drever_hall.Common.Int.{pos}
use pound_drever_hall.Python.Str.{IsPlain, file_lines, is_space}
use pound_drever_hall.Python.Number.{show_int, digits, show_int-IsPlain, show_int-first}
use pound_drever_hall.Python.Result.{ok}
use pound_drever_hall.Api.Commands.{read_coeffs}
use pound_drever_hall.Scripts.FirCoeffs.{
  Designed, rectangular, window_of, taps, divide_all, design_lowpass_fir, coeff_text, check_corner,
  write_coeffs,
}
use pound_drever_hall.Scripts.FirCoeffs.Laws.{PrintsFixed, write_coeffs-read_coeffs}
use pound_drever_hall.Tests.Numbers.{Real, steep_float, show_real, read_real-show_real}

show_real-IsPlain : (x : Real) → IsPlain (show_real x)
unfolding is_space
show_real-IsPlain none = (refl, (refl, (refl, tt)))
show_real-IsPlain (some n) = show_int-IsPlain n

show_real-ne-nil : (x : Real) → show_real x ≢ []
show_real-ne-nil none e = cc
show_real-ne-nil (some n) e = let (c, s, first, _) = show_int-first n in cc

prints : PrintsFixed steep_float
prints = record {
  rounded = λ x. x;
  fixed-IsPlain = show_real-IsPlain;
  fixed-ne-nil = show_real-ne-nil;
  parse-fixed = read_real-show_real;
}

coeffs_run :
    write_coeffs ⦃fl = steep_float⦄ 2 (some (pos 1)) (some (pos 4)) (codes "rectangular")
    ≡ ok (codes "0\n1\n")
unfolding write_coeffs check_corner design_lowpass_fir window_of rectangular taps divide_all
    coeff_text show_int digits
coeffs_run = refl

write_coeffs-read_coeffs_example :
    (designed : Designed Real) × (design_lowpass_fir ⦃fl = steep_float⦄ 2
        (some (pos 1))
        (some (pos 4))
        (codes "rectangular")
      ≡ ok designed)
    × (length designed.coeffs ≡ 2)
    × (read_coeffs ⦃fl = steep_float⦄ (file_lines (codes "0\n1\n"))
        ≡ ok (map prints.rounded designed.coeffs))
write_coeffs-read_coeffs_example =
    write_coeffs-read_coeffs ⦃fl = steep_float⦄ prints 2 (some (pos 1)) (some (pos 4))
      (codes "rectangular") coeffs_run
