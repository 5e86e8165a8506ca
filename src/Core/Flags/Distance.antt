-- ===== src/Core/Flags/Distance.antt =====
-- The two rows of `string_similarity` in src/lina_core.cpp: they leave the least number of edits between the texts.
use Prim.Native.Nat.{min}
use lina_cpx.Prelude.{
  ℕ, zero, suc, ◌+◌, ◌≤◌, ◌≡◌, refl, sym, ap, ap₂, subst, ◌∙◌, List, [], ◌∷◌, ◌++◌, Option, none,
  some, append-nil, Bytes, length, get_elem?, ◌⊎◌, inl, inr, arith,
}
use lina_cpx.Core.Flags.{cost, first_row, next_row, last_row, distance}

-- so many deletions, insertions and substitutions that turn the first text into the second
pub data Edits : Bytes → Bytes → ℕ → Type 0 where
  nothing : Edits [] [] 0
  delete : {x : ℕ} {xs ys : Bytes} {n : ℕ} → Edits xs ys n → Edits (x ∷ xs) ys (suc n)
  insert : {y : ℕ} {xs ys : Bytes} {n : ℕ} → Edits xs ys n → Edits xs (y ∷ ys) (suc n)
  pair :
      {x y : ℕ} {xs ys : Bytes} {n m : ℕ}
      → Edits xs ys n
      → m ≡ n + cost x y
      → Edits (x ∷ xs) (y ∷ ys) m

-- the recurrence
unfoldable pub least : Bytes → Bytes → ℕ
least [] ys = length ys
least (x ∷ xs) [] = suc (length xs)
least (x ∷ xs) (y ∷ ys) =
    min (min (least (x ∷ xs) ys + 1) (least xs (y ∷ ys) + 1)) (least xs ys + cost x y)

least_deleted : (x : ℕ) (xs ys : Bytes) → least (x ∷ xs) ys ≤ suc (least xs ys)
unfolding least
least_deleted x [] [] = omega arith
least_deleted x (y ∷ xs) [] = omega arith
least_deleted x xs (y ∷ ys) = omega arith

least_inserted : (y : ℕ) (xs ys : Bytes) → least xs (y ∷ ys) ≤ suc (least xs ys)
unfolding least
least_inserted y [] ys = omega arith
least_inserted y (x ∷ xs) ys = omega arith

least_paired : (x y : ℕ) (xs ys : Bytes) → least (x ∷ xs) (y ∷ ys) ≤ least xs ys + cost x y
unfolding least
least_paired x y xs ys = omega arith

least-le : (xs ys : Bytes) (n : ℕ) → Edits xs ys n → least xs ys ≤ n
unfolding least
least-le [] [] zero nothing = omega arith
least-le (x ∷ xs) ys (suc n) (delete e) = omega (arith, least_deleted x xs ys, least-le xs ys n e)
least-le xs (y ∷ ys) (suc n) (insert e) = omega (arith, least_inserted y xs ys, least-le xs ys n e)
least-le (x ∷ xs) (y ∷ ys) m (pair {n = n} e h) =
    omega (arith, least_paired x y xs ys, h, least-le xs ys n e)

inserted_all : (ys : Bytes) → Edits [] ys (length ys)
inserted_all [] = nothing
inserted_all (y ∷ ys) = insert (inserted_all ys)

deleted_all : (xs : Bytes) → Edits xs [] (length xs)
deleted_all [] = nothing
deleted_all (x ∷ xs) = delete (deleted_all xs)

min_of_three :
    (a b c : ℕ)
    → (suc a ≡ min (min (a + 1) (b + 1)) c)
      ⊎ ((suc b ≡ min (min (a + 1) (b + 1)) c) ⊎ (c ≡ min (min (a + 1) (b + 1)) c))
min_of_three a b c = omega arith

least-Edits : (xs ys : Bytes) → Edits xs ys (least xs ys)
unfolding least
least-Edits [] ys = inserted_all ys
least-Edits (x ∷ xs) [] = deleted_all (x ∷ xs)
least-Edits (x ∷ xs) (y ∷ ys) =
    let c = least xs ys + cost x y in
    let P : ℕ → Type 0 = λ n. Edits (x ∷ xs) (y ∷ ys) n in
    let ins = least-Edits (x ∷ xs) ys in
    let del = least-Edits xs (y ∷ ys) in
    let par = least-Edits xs ys in
    elim (min_of_three (least (x ∷ xs) ys) (least xs (y ∷ ys)) c) [
      | inl e ↦ subst P e (insert ins)
      | inr (inl e) ↦ subst P e (delete del)
      | inr (inr e) ↦ subst P e (pair par refl)
    ]

-- the first text backwards, and the second behind it
unfoldable pub onto : Bytes → Bytes → Bytes
onto [] vs = vs
onto (x ∷ xs) vs = onto xs (x ∷ vs)

onto-onto : (xs vs ws : Bytes) → onto (onto xs vs) ws ≡ onto vs (xs ++ ws)
unfolding onto
onto-onto [] vs ws = refl
onto-onto (x ∷ xs) vs ws = onto-onto xs (x ∷ vs) ws

-- edits can be made from the other end
onto-Edits :
    (xs ys vs ws : Bytes) (n m : ℕ)
    → Edits xs ys n
    → Edits vs ws m
    → Edits (onto xs vs) (onto ys ws) (n + m)
unfolding onto
onto-Edits [] [] vs ws zero m nothing f = subst (λ k. Edits vs ws k) (omega arith) f
onto-Edits (x ∷ xs) ys vs ws (suc n) m (delete e) f =
    subst (λ k. Edits (onto xs (x ∷ vs)) (onto ys ws) k) (omega arith)
      (onto-Edits xs ys (x ∷ vs) ws n (suc m) e (delete f))
onto-Edits xs (y ∷ ys) vs ws (suc n) m (insert e) f =
    subst (λ k. Edits (onto xs vs) (onto ys (y ∷ ws)) k) (omega arith)
      (onto-Edits xs ys vs (y ∷ ws) n (suc m) e (insert f))
onto-Edits (x ∷ xs) (y ∷ ys) vs ws k m (pair {n = n} e h) f =
    subst (λ k. Edits (onto xs (x ∷ vs)) (onto ys (y ∷ ws)) k) (omega (arith, h))
      (onto-Edits xs ys (x ∷ vs) (y ∷ ws) n (m + cost x y) e (pair f refl))

backwards-Edits : (xs ys : Bytes) (n : ℕ) → Edits (onto xs []) (onto ys []) n → Edits xs ys n
unfolding onto
backwards-Edits xs ys n e =
    let both = onto-Edits (onto xs []) (onto ys []) [] [] n 0 e nothing in
    let left = onto-onto xs [] [] ∙ append-nil xs in
    let right = onto-onto ys [] [] ∙ append-nil ys in
    let P : ℕ → Type 0 = λ k. Edits xs ys k in
    subst P (omega arith) (
      subst (λ v. Edits xs v (n + 0)) right
        (subst (λ v. Edits v (onto (onto ys []) []) (n + 0)) left both))

-- the row of the beginnings of a text, `ra` before it backwards, against `rb` backwards
unfoldable row : Bytes → Bytes → Bytes → List ℕ
row ra [] rb = least ra rb ∷ []
row ra (x ∷ xs) rb = least ra rb ∷ row (x ∷ ra) xs rb

least_nil : (ra : Bytes) → least ra [] ≡ length ra
unfolding least
least_nil [] = refl
least_nil (x ∷ ra) = refl

first_row-row : (ra xs : Bytes) → first_row xs (length ra) ≡ row ra xs []
unfolding first_row row
first_row-row ra [] = ap (λ n. n ∷ []) (sym (least_nil ra))
first_row-row ra (x ∷ xs) = ap₂ (λ n r. n ∷ r) (sym (least_nil ra)) (first_row-row (x ∷ ra) xs)

next_row-row :
    (y : ℕ) (ra xs rb : Bytes)
    → least ra (y ∷ rb) ∷ next_row y xs (row ra xs rb) (least ra (y ∷ rb)) ≡ row ra xs (y ∷ rb)
unfolding next_row row least
next_row-row y ra [] rb = refl
next_row-row y ra (x ∷ []) rb = refl
next_row-row y ra (x ∷ z ∷ xs) rb =
    ap (λ r. least ra (y ∷ rb) ∷ r) (next_row-row y (x ∷ ra) (z ∷ xs) rb)

row_last : (ra xs rb : Bytes) → get_elem? (row ra xs rb) (length xs) ≡ some (least (onto xs ra) rb)
unfolding row onto
row_last ra [] rb = refl
row_last ra (x ∷ xs) rb = row_last (x ∷ ra) xs rb

last_row-row :
    (a b rb : Bytes) → last_row a b (suc (length rb)) (row [] a rb) ≡ row [] a (onto b rb)
unfolding last_row onto least
last_row-row a [] rb = refl
last_row-row a (y ∷ b) rb =
    ap (λ r. last_row a b (suc (suc (length rb))) r) (next_row-row y [] a rb)
    ∙ last_row-row a b (y ∷ rb)

distance-least : (a b : Bytes) → distance a b ≡ least (onto a []) (onto b [])
unfolding distance
distance-least a b =
    let rows : last_row a b 1 (first_row a 0) ≡ row [] a (onto b []) =
      ap (λ r. last_row a b 1 r) (first_row-row [] a) ∙ last_row-row a b [] in
    let found = ap (λ r. get_elem? r (length a)) rows ∙ row_last [] a (onto b []) in
    ap (λ (o : Option ℕ). elim o [ none ↦ 0 | some d ↦ d ]) found

-- The two rows leave the least number of edits: so many deletions, insertions and substitutions turn the first
-- text into the second, and whatever edits do, they are not fewer.
pub distance-Edits :
    (a b : Bytes) (n : ℕ) → Edits a b n → Edits a b (distance a b) × (distance a b ≤ n)
unfolding onto
distance-Edits a b n e =
    let ra = onto a [] in
    let rb = onto b [] in
    let back = onto-Edits a b [] [] n 0 e nothing in
    (
      backwards-Edits a b (distance a b)
          (subst (λ k. Edits ra rb k) (sym (distance-least a b)) (least-Edits ra rb)),
      omega (arith, distance-least a b, least-le ra rb (n + 0) back),
    )

paired_all : (a : Bytes) → Edits a a 0
paired_all [] = nothing
paired_all (x ∷ xs) = pair (paired_all xs) (ground arith)

-- no edits between a text and itself
pub distance_self : (a : Bytes) → distance a a ≡ 0
distance_self a = omega (arith, (distance-Edits a a 0 (paired_all a)).1)
