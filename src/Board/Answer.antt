-- ===== src/Board/Answer.antt =====
-- core/sw/server.c: `send_response`, and the part of `main` between a command and its answer.
pub mod Laws
pub mod Failure
use pound_drever_hall.Common.{
  ℕ, Option, none, some, List, [], ◌∷◌, ◌++◌, Text, codes, ltb, length, if◌then◌else◌,
}
use pound_drever_hall.Common.Int.{ℤ, pos}
use pound_drever_hall.Python.Number.{show_int}
use pound_drever_hall.Board.Context.{CLib, Context}
use pound_drever_hall.Board.Dispatch.{Entry, dispatch_command, runs}

-- `output_item_t`, by its tag
pub data Item (G : Type 0) : Type 0 where
  float_item : Text → G → Item G
  int_item : Text → ℤ → Item G
  uint_item : Text → ℕ → Item G

module _ {G : Type 0} (c : CLib G) where
  -- "%s:%f\n", "%s:%d\n" and "%s:%u\n"
  abbrev item_line : Item G → Text
  item_line (float_item name y) = name ++ (b':' ∷ (c.print_f y ++ codes "\n"))
  item_line (int_item name n) = name ++ (b':' ∷ (show_int n ++ codes "\n"))
  item_line (uint_item name n) = name ++ (b':' ∷ (show_int (pos n) ++ codes "\n"))

  abbrev item_lines : List (Item G) → Text
  item_lines [] = []
  item_lines (item ∷ items) = item_line item ++ item_lines items

  abbrev response_text : ℤ → Text → List (Item G) → Text
  response_text status name items =
      codes "type:output\nname:"
      ++ (name ++ (codes "\nstatus:" ++ (show_int status ++ (codes "\n" ++ item_lines items))))

  -- `send_response`. A text that does not fit the buffer with its NUL has no defined answer: the
  -- offset goes on past the end.
  unfoldable pub send_response : ℤ → Text → List (Item G) → Option Text
  send_response status name items =
      let text = response_text status name items in
      if ltb (length text) 1024 then some text else none

  -- What the server answers to a command that it has loaded, over what the handlers return and push
  -- into the output. The status is 0 where no handler is called.
  unfoldable pub respond : (Entry → Context G → ℤ × List (Item G)) → Context G → Option Text
  respond run ctx = elim (dispatch_command ctx) [
    | runs e ↦ let (status, items) = run e ctx in send_response status ctx.name items
    | _ ↦ send_response (pos 0) ctx.name []
  ]
