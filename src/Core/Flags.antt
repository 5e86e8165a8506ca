-- ===== src/Core/Flags.antt =====
-- The helpers at the top of src/lina_core.cpp: what a text is cleaned of before it reaches a frame, and the
-- comparisons of texts and of vectors that flag an answer. Doubles are of a type `D` with their operations.
pub mod Distance
pub mod Words
pub mod Repeats
mod Tests
use Prim.Native.Nat.{min, max}
use lina_cpx.Prelude.{
  ℕ, zero, suc, ◌+◌, Bool, true, false, not, ◌&&◌, List, [], ◌∷◌, ◌++◌, Option, none, some, Bytes,
  codes, length, drop, get_elem?, is_empty, bytes_eq, ◌==◌, ◌||◌, if◌then◌else◌,
}
use lina_cpx.Text.{find, substr}
use lina_cpx.Value.Seasons.{mpq}
use lina_cpx.Value.Project.{Doubles}
use lina_cpx.Core.Gate.{Zone, aligned, acceptable_variance, violation}

-- The first loop of `sanitize_frame_text`, from index `i` on. It compares six characters with five. Each round
-- takes a byte at least, so that one more than the length is fuel enough.
unfoldable pub strip : ℕ → Bytes → ℕ → Bytes
strip zero text i = []
strip (suc fuel) text i = elim (drop i text) [
  | [] ↦ []
  | c ∷ cs ↦ elim (bytes_eq (substr text i 6) (codes "<|im_")) [
    | true ↦
        strip fuel text (elim (find text (codes ">") (i + 6)) [ none ↦ i + 6 | some end ↦ end + 1 ])
    | false ↦ c ∷ strip fuel text (i + 1)
  ]
]

unfoldable pub is_white : ℕ → Bool
is_white c = c == b' ' || (c == 9 || (c == 10 || c == 13))

-- The second loop; `some_yet` is whether anything is collapsed so far.
unfoldable pub collapse : Bool → Bool → Bytes → Bytes
collapse pending_space some_yet [] = []
collapse pending_space some_yet (c ∷ cs) =
    let skipped = collapse true some_yet cs in
    let kept = collapse false true cs in
    if is_white c
    then skipped
    else (if pending_space && some_yet then b' ' ∷ (c ∷ kept) else c ∷ kept)

unfoldable pub sanitize_frame_text : Bytes → Bytes
unfolding strip collapse
sanitize_frame_text text = collapse false false (strip (suc (length text)) text 0)

-- `cost`
abbrev pub cost : ℕ → ℕ → ℕ
cost x y = if x == y then 0 else 1

-- `prev` before the loop, from index `i` on
unfoldable pub first_row : Bytes → ℕ → List ℕ
first_row [] i = i ∷ []
first_row (x ∷ xs) i = i ∷ first_row xs (suc i)

-- The inner loop for the byte `y` of `b`: `curr` behind the entry `left`, from `prev`.
unfoldable pub next_row : ℕ → Bytes → List ℕ → ℕ → List ℕ
next_row y [] prev left = []
next_row y (x ∷ xs) [] left = []
next_row y (x ∷ xs) (p ∷ []) left = []
next_row y (x ∷ xs) (p ∷ q ∷ ps) left =
    let entry = min (min (q + 1) (left + 1)) (p + cost x y) in entry ∷ next_row y xs (q ∷ ps) entry

-- The outer loop over the rest of `b`, at round `j`.
unfoldable pub last_row : Bytes → Bytes → ℕ → List ℕ → List ℕ
unfolding next_row
last_row a [] j prev = prev
last_row a (y ∷ b) j prev = last_row a b (suc j) (j ∷ next_row y a prev j)

-- `prev[m]` at the end
unfoldable pub distance : Bytes → Bytes → ℕ
unfolding first_row last_row
distance a b = elim (get_elem? (last_row a b 1 (first_row a 0)) (length a)) [
  | none ↦ 0
  | some d ↦ d
]

module _ {D : Type 0} (ds : Doubles D) where
  abbrev pub of_count : ℕ → D
  of_count n = ds.of_mpq (mpq n 1)

  unfoldable pub string_similarity : Bytes → Bytes → D
  string_similarity a b =
      if is_empty a && is_empty b
      then ds.literal (mpq 1 1)
      else if is_empty a || is_empty b
      then ds.literal (mpq 0 1)
      else ds.sub (ds.literal (mpq 1 1))
          (ds.div (of_count (distance a b)) (of_count (max (length a) (length b))))

  unfoldable pub sum_of_squares : D → List D → List D → D
  sum_of_squares sum [] bs = sum
  sum_of_squares sum (x ∷ xs) [] = sum
  sum_of_squares sum (x ∷ xs) (y ∷ ys) =
      let diff = ds.sub x y in sum_of_squares (ds.add sum (ds.mul diff diff)) xs ys

  unfoldable pub euclidean_distance : List D → List D → D
  unfolding sum_of_squares
  euclidean_distance xs ys = ds.sqrt (sum_of_squares (ds.literal (mpq 0 1)) xs ys)
