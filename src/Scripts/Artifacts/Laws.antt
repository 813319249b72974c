-- ===== src/Scripts/Artifacts/Laws.antt =====
-- The numbering of artifact folders ends, and at the first number that is free.
use pound_drever_hall.Common.{
  ℕ, zero, suc, ◌+◌, ◌≤◌, ◌<◌, ◌≡◌, ◌≢◌, refl, inl, inr, Bool, true, false, Option, none, some, [],
  ◌∷◌, ◌++◌, Text, text_eq_iff, leb, if◌then◌else◌, arith, length, drop, dec_lt, Bool-cases,
  Option-cases,
}
use pound_drever_hall.Common.Int.{ℤ, pos, negsuc}
use pound_drever_hall.Python.Number.{int_of, show_int, int_of-show_int}
use pound_drever_hall.Python.Result.{ok}
use pound_drever_hall.Scripts.Artifacts.{
  FilePath, path_eq, Tree, folder, find, numbered, next_free, make_base, make_artifact_dir,
}

path_eq_sound : (p q : FilePath) → path_eq p q ≡ true → p ≡ q
path_eq_sound [] [] h = refl
path_eq_sound [] (t ∷ q) h = cc
path_eq_sound (s ∷ p) [] h = cc
path_eq_sound (s ∷ p) (t ∷ q) h = ground (arith, (text_eq_iff s t).0, path_eq_sound p q)

-- The number at the end of a numbered folder's name.
abbrev number_after : Text → FilePath → Option ℤ
number_after sim_name (a ∷ b ∷ name ∷ []) = int_of (drop (suc (length sim_name)) name)
number_after sim_name _ = none

drop-append : (s t : Text) (c : ℕ) → drop (suc (length s)) (s ++ (c ∷ t)) ≡ t
drop-append [] t c = refl
drop-append (d ∷ s) t c = drop-append s t c

number_after-numbered :
    (sim_name : Text) (n : ℕ) → number_after sim_name (numbered sim_name n) ≡ some (pos n)
unfolding numbered
number_after-numbered sim_name n =
    rw (drop-append sim_name (show_int (pos n)) b'_') (int_of-show_int (pos n))

-- Whether a path is a folder of a number from `n` on.
abbrev from : Text → ℕ → FilePath → Bool
from sim_name n p = elim (number_after sim_name p) [
  | none ↦ false
  | some (pos k) ↦ leb n k
  | some (negsuc k) ↦ false
]

-- How many numbers from `n` on are taken.
abbrev taken : Text → ℕ → Tree → ℕ
taken sim_name n [] = 0
taken sim_name n ((p, kind) ∷ tree) = (if from sim_name n p then 1 else 0) + taken sim_name n tree

taken-le : (sim_name : Text) (n : ℕ) (tree : Tree) → taken sim_name n tree ≤ length tree
taken-le sim_name n [] = omega arith
taken-le sim_name n ((p, kind) ∷ tree) = ground (arith, taken-le sim_name n tree)

from-less :
    (sim_name : Text) (n : ℕ) (p : FilePath)
    → (if from sim_name (n + 1) p then 1 else 0) ≤ (if from sim_name n p then 1 else 0)
from-less sim_name n p = ground arith

taken-less :
    (sim_name : Text) (n : ℕ) (tree : Tree) → taken sim_name (n + 1) tree ≤ taken sim_name n tree
taken-less sim_name n [] = omega arith
taken-less sim_name n ((p, kind) ∷ tree) =
    omega (arith, from-less sim_name n p, taken-less sim_name n tree)

from-numbered :
    (sim_name : Text) (n : ℕ)
    → (from sim_name n (numbered sim_name n) ≡ true)
      × (from sim_name (n + 1) (numbered sim_name n) ≡ false)
from-numbered sim_name n = ground (arith, number_after-numbered sim_name n)

-- A number that is taken is counted once from itself on and not from the next on.
taken-find :
    (sim_name : Text) (n : ℕ) (tree : Tree)
    → find (numbered sim_name n) tree ≢ none
    → taken sim_name (n + 1) tree < taken sim_name n tree
unfolding find
taken-find sim_name n [] h = absurd (h refl)
taken-find sim_name n ((p, kind) ∷ tree) h = elim (Bool-cases (path_eq p (numbered sim_name n))) [
  | inl same ↦
      let (here, next) = from-numbered sim_name n in
      let e : p ≡ numbered sim_name n = path_eq_sound p (numbered sim_name n) same in
      rw (e, here, next) (omega (arith, taken-less sim_name n tree))
  | inr other ↦
      omega (arith, from-less sim_name n p, taken-find sim_name n tree (λ e. h (rw other e)))
]

-- `d` is the first numbered folder from `n` on that did not exist, and now it does.
pub record IsNext (sim_name : Text) (n : ℕ) (tree : Tree) (d : FilePath) (made : Tree)
    : Type 0 where
  pub number : ℕ
  pub from_n : n ≤ number
  pub name : d ≡ numbered sim_name number
  pub fresh : find d tree ≡ none
  pub least : (k : ℕ) → n ≤ k → k < number → find (numbered sim_name k) tree ≢ none
  pub added : made ≡ (d, folder) ∷ tree

next_free-IsNext :
    (fuel : ℕ) (sim_name : Text) (n : ℕ) (tree : Tree)
    → taken sim_name n tree < fuel
    → (d : FilePath) × (made : Tree) × (next_free fuel sim_name n tree ≡ some (d, made))
      × IsNext sim_name n tree d made
unfolding next_free
next_free-IsNext zero sim_name n tree h = absurd (omega arith)
next_free-IsNext (suc fuel) sim_name n tree h =
    elim (Option-cases (find (numbered sim_name n) tree)) [
      | inl free ↦ (
        _,
        _,
        rw (next_free, free),
        record {
          number = n;
          from_n = omega arith;
          name = refl;
          fresh = free;
          least = λ k p q. absurd (omega arith);
          added = refl;
        },
      )
      | inr (kind, held) ↦
          let here : find (numbered sim_name n) tree ≢ none = λ e. cc in
          let (d, made, e, next) =
            next_free-IsNext fuel sim_name (n + 1) tree
              (omega (arith, taken-find sim_name n tree here)) in
          (
            d,
            made,
            rw (next_free, held) e,
            record {
              number = next.number;
              from_n = omega (arith, next.from_n);
              name = next.name;
              fresh = next.fresh;
              least = λ k p q. elim (dec_lt n k) [
                | yes above ↦ next.least k (omega arith) q
                | no below ↦ let e : n ≡ k = omega arith in rw (← e) here
              ];
              added = next.added;
            },
          )
    ]

-- If the folder of the runs can be made, the loop that numbers a run ends, within one round more
-- than there are things in the tree: at the least number from 1 on whose folder did not exist,
-- and with that folder made.
pub make_artifact_dir-IsNext :
    (sim_name : Text) (tree : Tree) {based : Tree}
    → make_base sim_name tree ≡ ok based
    → (d : FilePath) × (made : Tree) × (make_artifact_dir sim_name tree ≡ ok (some (d, made)))
      × IsNext sim_name 1 based d made
unfolding make_artifact_dir
make_artifact_dir-IsNext sim_name tree {based} h =
    let (d, made, e, next) =
      next_free-IsNext (suc (length based)) sim_name 1 based
        (omega (arith, taken-le sim_name 1 based)) in
    (d, made, rw (h, e), next)
