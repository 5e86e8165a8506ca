-- ===== src/Text/Search.antt =====
-- A search by positions, as a cut of the text into what stands before and behind the pattern.
use lina_cpx.Prelude.{
  ℕ, zero, suc, ◌+◌, ◌≤◌, ◌≡◌, refl, ap, ◌∙◌, inl, inr, true, false, ◌&&◌, [], ◌∷◌, ◌++◌, Option,
  none, some, Bytes, length, drop, length-append, drop-append, All, le→ltb, ◌==◌, if◌then◌else◌,
  Bool-cases, Option-cases, arith,
}
use lina_cpx.Text.{is_prefix, find_from, find}

-- The text before the first place where the pattern stands, and the text behind it.
unfoldable pub cut : Bytes → Bytes → Option (Bytes × Bytes)
cut pat [] = if is_prefix pat [] then some ([], []) else none
cut pat (c ∷ cs) =
    let rest = cut pat cs in
    if is_prefix pat (c ∷ cs)
    then some ([], drop (length pat) (c ∷ cs))
    else elim rest [ none ↦ none | some (pre, post) ↦ some (c ∷ pre, post) ]

abbrev pub place : ℕ → Option (Bytes × Bytes) → Option ℕ
place i none = none
place i (some (pre, post)) = some (i + length pre)

find_from-cut : (pat text : Bytes) (i : ℕ) → find_from pat text i ≡ place i (cut pat text)
unfolding find_from cut
find_from-cut pat [] i = ground arith
find_from-cut pat (c ∷ cs) i = ground (arith, find_from-cut pat cs (i + 1))

pub find-cut :
    (text pat : Bytes) (i : ℕ) → i ≤ length text → find text pat i ≡ place i (cut pat (drop i text))
unfolding find
find-cut text pat i h = rw (le→ltb _ _ h) (find_from-cut pat (drop i text) i)

is_prefix-split :
    (pat text : Bytes) → is_prefix pat text ≡ true → text ≡ pat ++ drop (length pat) text
unfolding is_prefix
is_prefix-split [] text h = refl
is_prefix-split (p ∷ ps) [] h = cc
is_prefix-split (p ∷ ps) (c ∷ cs) h = ground (arith, is_prefix-split ps cs)

pub is_prefix-le : (pat text : Bytes) → is_prefix pat text ≡ true → length pat ≤ length text
is_prefix-le pat text h =
    omega
      (arith, ap length (is_prefix-split pat text h), length-append pat (drop (length pat) text))

-- A cut that passes the first byte is a cut of the rest.
cut_later :
    (pat : Bytes) (c : ℕ) (cs pre post : Bytes)
    → is_prefix pat (c ∷ cs) ≡ false
    → cut pat (c ∷ cs) ≡ some (pre, post)
    → (pre' : Bytes) × (pre ≡ c ∷ pre') × (cut pat cs ≡ some (pre', post))
unfolding cut
cut_later pat c cs pre post miss h = elim (Option-cases (cut pat cs)) [
  | inl e ↦ absurd (ground arith)
  | inr ((pre', post'), e) ↦ (pre', ground arith, ground arith)
]

cut_here :
    (pat : Bytes) (c : ℕ) (cs pre post : Bytes)
    → is_prefix pat (c ∷ cs) ≡ true
    → cut pat (c ∷ cs) ≡ some (pre, post)
    → (pre ≡ []) × (post ≡ drop (length pat) (c ∷ cs))
unfolding cut
cut_here pat c cs pre post hit h = ground arith

cut_step :
    (pat : Bytes) (c : ℕ) (cs pre pre' post : Bytes)
    → is_prefix pat (c ∷ cs) ≡ false
    → pre ≡ c ∷ pre'
    → cut pat cs ≡ some (pre', post)
    → cut pat (c ∷ cs) ≡ some (pre, post)
unfolding cut
cut_step pat c cs pre pre' post miss e later = rw (miss, later, e)

-- A cut takes the text apart.
pub cut-split :
    (pat text pre post : Bytes) → cut pat text ≡ some (pre, post) → text ≡ pre ++ (pat ++ post)
cut-split [] [] pre post h = unfold cut is_prefix in ground arith
cut-split (p ∷ ps) [] pre post h = unfold cut is_prefix in cc
cut-split pat (c ∷ cs) pre post h = elim (Bool-cases (is_prefix pat (c ∷ cs))) [
  | inl hit ↦
      let (e, e') = cut_here pat c cs pre post hit h in
      rw (e, e') (is_prefix-split pat (c ∷ cs) hit)
  | inr miss ↦
      let (pre', e, later) = cut_later pat c cs pre post miss h in
      rw e (ap (λ r. c ∷ r) (cut-split pat cs pre' post later))
]

pub cut-le :
    (pat text pre post : Bytes)
    → cut pat text ≡ some (pre, post)
    → length text ≡ length pre + length pat + length post
cut-le pat text pre post h = omega (
  arith,
  ap length (cut-split pat text pre post h),
  length-append pre (pat ++ post),
  length-append pat post,
)

is_prefix-append :
    (pat text more : Bytes)
    → length pat ≤ length text
    → is_prefix pat (text ++ more) ≡ is_prefix pat text
unfolding is_prefix
is_prefix-append [] text more h = refl
is_prefix-append (p ∷ ps) [] more h = absurd (omega arith)
is_prefix-append (p ∷ ps) (c ∷ cs) more h =
    ap (λ r. (p == c) && r) (is_prefix-append ps cs more (omega arith))

drop-append_le : (n : ℕ) (xs ys : Bytes) → n ≤ length xs → drop n (xs ++ ys) ≡ drop n xs ++ ys
drop-append_le zero xs ys h = refl
drop-append_le (suc n) [] ys h = absurd (omega arith)
drop-append_le (suc n) (x ∷ xs) ys h = drop-append_le n xs ys (omega arith)

cut_nil : (text : Bytes) → cut [] text ≡ some ([], text)
unfolding cut is_prefix
cut_nil [] = refl
cut_nil (c ∷ cs) = refl

-- What follows a text does not move the first place of a pattern in it.
pub cut-append :
    (pat text more pre post : Bytes)
    → cut pat text ≡ some (pre, post)
    → cut pat (text ++ more) ≡ some (pre, post ++ more)
cut-append [] [] more pre post h = unfold cut is_prefix in ground (arith, cut_nil more)
cut-append (p ∷ ps) [] more pre post h = unfold cut is_prefix in cc
cut-append pat (c ∷ cs) more pre post h = elim (Bool-cases (is_prefix pat (c ∷ cs))) [
  | inl hit ↦
      let (e, e') = cut_here pat c cs pre post hit h in
      let fits = is_prefix-le pat (c ∷ cs) hit in
      unfold cut in
      rw (is_prefix-append pat (c ∷ cs) more fits, hit, e, e')
        (ap (λ r. some ([], r)) (drop-append_le (length pat) (c ∷ cs) more fits))
  | inr miss ↦
      let (pre', e, later) = cut_later pat c cs pre post miss h in
      let fits : length pat ≤ length (c ∷ cs) = omega (arith, cut-le pat cs pre' post later) in
      cut_step pat c (cs ++ more) pre pre' (post ++ more)
        (is_prefix-append pat (c ∷ cs) more fits ∙ miss) e (cut-append pat cs more pre' post later)
]

is_prefix_short :
    (d : ℕ) (ps text rest : Bytes)
    → All (λ p. ¬ (p ≡ d)) ps
    → is_prefix ps (text ++ d ∷ rest) ≡ true
    → is_prefix ps text ≡ true
unfolding is_prefix
is_prefix_short d [] text rest h e = refl
is_prefix_short d (p ∷ ps) [] rest h e = absurd (h.0 (ground arith))
is_prefix_short d (p ∷ ps) (c ∷ cs) rest h e = ground (arith, is_prefix_short d ps cs rest h.1)

pub is_prefix_self : (pat post : Bytes) → is_prefix pat (pat ++ post) ≡ true
unfolding is_prefix
is_prefix_self [] post = refl
is_prefix_self (p ∷ ps) post = ground (arith, is_prefix_self ps post)

overlap :
    (d : ℕ) (ds : Bytes) (c : ℕ) (cs rest : Bytes)
    → All (λ p. ¬ (p ≡ d)) ds
    → cut (d ∷ ds) (c ∷ cs) ≡ none
    → is_prefix (d ∷ ds) (c ∷ (cs ++ d ∷ rest)) ≡ true
    → ⊥
unfolding cut is_prefix
overlap d ds c cs rest h e hit = ground (arith, is_prefix_short d ds cs rest h)

-- A pattern whose first byte does not come again is first found where it is first written.
pub cut_written :
    (d : ℕ) (ds pre post : Bytes)
    → All (λ p. ¬ (p ≡ d)) ds
    → cut (d ∷ ds) pre ≡ none
    → cut (d ∷ ds) (pre ++ (d ∷ ds ++ post)) ≡ some (pre, post)
unfolding cut
cut_written d ds [] post h e =
    rw (is_prefix_self (d ∷ ds) post) (ap (λ r. some ([], r)) (drop-append ds post))
cut_written d ds (c ∷ cs) post h e =
    elim (Bool-cases (is_prefix (d ∷ ds) (c ∷ (cs ++ d ∷ (ds ++ post))))) [
      | inl hit ↦ absurd (no_overlap hit)
      | inr miss ↦ rw (miss, cut_written d ds cs post h (ground arith))
    ]
  where
    no_overlap : is_prefix (d ∷ ds) (c ∷ (cs ++ d ∷ (ds ++ post))) ≡ true → ⊥
    no_overlap hit = overlap d ds c cs (ds ++ post) h e hit
