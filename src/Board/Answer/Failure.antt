-- ===== src/Board/Answer/Failure.antt =====
-- What the client makes of the answer to a command that the board does not run.
use pound_drever_hall.Common.{
  ℕ, ◌≤◌, ◌≡◌, ◌≢◌, ◌⊎◌, refl, ◌∙◌, Bool, true, false, not, ◌&&◌, some, List, [], ◌∷◌, Text, codes,
  ltb, length, All, arith, lt→ltb, inl, inr, length-append,
}
use pound_drever_hall.Common.Int.{ℤ, pos}
use pound_drever_hall.Python.Str.{IsPlain, is_space, contains}
use pound_drever_hall.Python.Number.{show_int, show_nat, digits, show_int-IsPlain}
use pound_drever_hall.Python.Float.{Float}
use pound_drever_hall.Api.Response.{int, lookup, parse_response}
use pound_drever_hall.Api.Response.Laws.{IsField, IsKey}
use pound_drever_hall.Board.Context.{CLib, Context}
use pound_drever_hall.Board.Dispatch.{
  Entry, Dispatch, no_cmd, float_arg_mismatch, int_arg_mismatch, uint_arg_mismatch,
  dispatch_command, runs,
}
use pound_drever_hall.Board.Answer.{Item, response_text, send_response, respond}
use pound_drever_hall.Board.Answer.Laws.{fields_of, send_response-read}

abbrev pub is_plain : Text → Bool
is_plain [] = true
is_plain (c ∷ s) = not (is_space c) && is_plain s

pub is_plain-IsPlain : (s : Text) → is_plain s ≡ true → IsPlain s
is_plain-IsPlain [] h = tt
is_plain-IsPlain (c ∷ s) h = (ground arith, is_plain-IsPlain s (ground arith))

pub printed-IsKey :
    (c : ℕ) (k : Text) → is_plain (c ∷ k) ≡ true → contains b':' (c ∷ k) ≡ false → IsKey (c ∷ k)
printed-IsKey c k plain no_colon = record {
  not_empty = λ e. cc;
  plain = is_plain-IsPlain (c ∷ k) plain;
  no_colon = no_colon;
}

module _ {G : Type 0} (c : CLib G) where
  dispatch-cases :
      (ctx : Context G)
      → ((e : Entry) × (dispatch_command ctx ≡ runs e))
        ⊎ ((run : Entry → Context G → ℤ × List (Item G))
            → respond c run ctx ≡ send_response c (pos 0) ctx.name [])
  unfolding respond
  dispatch-cases ctx = by_dispatch (dispatch_command ctx) refl
    where
      by_dispatch :
          (d : Dispatch)
          → dispatch_command ctx ≡ d
          → ((e : Entry) × (dispatch_command ctx ≡ runs e))
            ⊎ ((run : Entry → Context G → ℤ × List (Item G))
                → respond c run ctx ≡ send_response c (pos 0) ctx.name [])
      by_dispatch (runs e) h = inl (e, h)
      by_dispatch no_cmd h = inr (λ run. rw (respond, h))
      by_dispatch float_arg_mismatch h = inr (λ run. rw (respond, h))
      by_dispatch int_arg_mismatch h = inr (λ run. rw (respond, h))
      by_dispatch uint_arg_mismatch h = inr (λ run. rw (respond, h))

  pub standard-IsField :
      (status : ℤ) (name : Text) → IsPlain name → All IsField (fields_of c status name [])
  unfolding is_space contains
  standard-IsField status name plain = (
    (printed-IsKey _ _ refl refl, is_plain-IsPlain (codes "output") refl),
    (
      (printed-IsKey _ _ refl refl, plain),
      ((printed-IsKey _ _ refl refl, show_int-IsPlain status), tt),
    ),
  )

  fits_bare :
      (name : Text)
      → length name ≤ 255
      → (text : Text) × (send_response c (pos 0) name [] ≡ some text)
  unfolding send_response show_int show_nat digits
  fits_bare name h =
      let text = response_text c (pos 0) name [] in
      let short : ltb (length text) 1024 ≡ true =
        lt→ltb (length text) 1024 (omega (arith, length-append name (codes "\nstatus:0\n"))) in
      (text, rw (send_response, short))

module _ {F G : Type 0} ⦃fl : Float F⦄ (c : CLib G) where
  -- A command that the board does not run, as it has no such name or too few numbers, is answered with
  -- status 0, which the client takes for success.
  pub respond-not_run :
      (run : Entry → Context G → ℤ × List (Item G)) (ctx : Context G)
      → ((e : Entry) → dispatch_command ctx ≢ runs e)
      → IsPlain ctx.name
      → length ctx.name ≤ 255
      → (text : Text) × (respond c run ctx ≡ some text)
        × (lookup {F = F} (codes "status") (parse_response text) ≡ some (int (pos 0)))
  respond-not_run run ctx fails plain short = elim (dispatch-cases c ctx) [
    | inl (e, h) ↦ absurd (fails e h)
    | inr answers ↦
        let (text, sent) = fits_bare c ctx.name short in
        (
          text,
          answers run ∙ sent,
          (send_response-read c (pos 0) ctx.name [] sent (standard-IsField c (pos 0) ctx.name plain)
              ((refl, (refl, tt)), ((refl, tt), (tt, tt)))).0,
        )
  ]
