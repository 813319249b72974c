-- ===== src/Python/Result.antt =====
-- Exceptions as values: the kinds that the code raises or lets through, and a computation that
-- returns or raises.
use pound_drever_hall.Common.{if◌then◌else◌, Bool, Text, ◌≡◌, refl}
use pound_drever_hall.Common.Int.{ℤ}

pub data Error : Type 0 where
  -- `ValueError`, with its message where the code writes it
  value_error : Text → Error
  -- the `ValueError` of `int` or `float` at a text that is no number
  bad_literal : Text → Error
  -- the `ValueError` of `math.sin` and `math.cos`, and of `max` with nothing to compare
  math_domain : Error
  empty_max : Error
  runtime_error : Text → Error
  key_error : Text → Error
  index_error : Error
  zero_division : Error
  unicode_error : Error
  -- raised by `socket`, by `paramiko` and by the file system
  os_error : Error
  -- `sys.exit` with a message
  system_exit : Text → Error
  -- `sys.exit` with a number
  exit_code : ℤ → Error

-- What a computation returns, or the exception that it raises.
pub data Result (A : Type 0) : Type 0 where
  err : (exception : Error) → Result A
  ok : (value : A) → Result A

module _ {A B : Type 0} where
  infixl 5 ◌>>=◌
  abbrev pub ◌>>=◌ : Result A → (A → Result B) → Result B
  ◌>>=◌ (err exception) next = err exception
  ◌>>=◌ (ok value) next = next value

  -- Where a sequence returns, its first part has returned and the rest goes on from there.
  pub >>=-eq-ok :
      (first : Result A) (next : A → Result B) {value : B}
      → (first >>= next) ≡ ok value
      → (a : A) × (first ≡ ok a) × (next a ≡ ok value)
  >>=-eq-ok (err exception) next returned = cc
  >>=-eq-ok (ok a) next returned = (a, refl, returned)

  -- A sequence goes on from what its first part returns.
  pub >>=-at-ok :
      {first : Result A} {a : A} (next : A → Result B) {r : Result B}
      → first ≡ ok a
      → next a ≡ r
      → (first >>= next) ≡ r
  >>=-at-ok next e h = rw e h

-- `if not test: raise exception`
abbrev pub guard : Bool → Error → Result (Unit {0})
guard test exception = if test then ok tt else err exception

infixl 5 ◌>>◌
abbrev pub ◌>>◌ : {B : Type 0} → Result (Unit {0}) → Result B → Result B
first >> rest = first >>= λ _. rest
