-- ===== src/Tools/Json/Fields.antt =====
-- Where the extraction of src/tool_engine.cpp finds the value of a key, in any text that holds the key
-- in quotes.
use lina_cpx.Prelude.{
  ℕ, zero, suc, ◌+◌, ◌≤◌, ◌≡◌, refl, sym, ap, ◌∙◌, true, false, [], ◌∷◌, ◌++◌, none, some, Bytes,
  length, drop, drop-append, length-append, arith, All, ◌==◌,
}
use lina_cpx.Text.{is_prefix, find}
use lina_cpx.Text.Search.{cut, place, find-cut, cut-split, cut_written}
use lina_cpx.Tools.Json.{is_space, find_key, skip_spaces}

abbrev pub quoted_key : Bytes → Bytes
quoted_key key = b'"' ∷ (key ++ b'"' ∷ [])

abbrev pub AllSpaces : Bytes → Type 0
AllSpaces s = All (λ c. is_space c ≡ true) s

-- The text from the first place of the quoted key on is the key, spaces, a colon, spaces and a text.
abbrev pub HasField : Bytes → Bytes → Bytes → Type 0
HasField json key value =
    (before : Bytes) × (gap : Bytes) × (ws : Bytes) × AllSpaces gap
    × AllSpaces ws
    × (cut (quoted_key key) json ≡ some (before, gap ++ b':' ∷ (ws ++ value)))

colon_no_space : (c : ℕ) → is_space c ≡ true → b':' == c ≡ false
colon_no_space c h = ground arith

no_colon : (gap : Bytes) → AllSpaces gap → cut (b':' ∷ []) gap ≡ none
unfolding cut is_prefix
no_colon [] h = refl
no_colon (c ∷ cs) h = rw (colon_no_space c h.0, no_colon cs h.1) refl

spaces_skipped :
    (ws : Bytes) (c : ℕ) (rest : Bytes)
    → AllSpaces ws
    → is_space c ≡ false
    → skip_spaces (ws ++ c ∷ rest) ≡ length ws
unfolding skip_spaces
spaces_skipped [] c rest h e = rw e refl
spaces_skipped (w ∷ ws) c rest h e = rw h.0 (ap suc (spaces_skipped ws c rest h.1 e))

suc_add : (a b : ℕ) → suc a + b ≡ suc (a + b)
suc_add a b = omega arith

drop_nil : (n : ℕ) → drop {A = ℕ} n [] ≡ []
drop_nil zero = refl
drop_nil (suc n) = refl

drop_more : (a b : ℕ) (xs : Bytes) → drop (a + b) xs ≡ drop b (drop a xs)
drop_more zero b xs = ap (λ n. drop n xs) (zero_add b)
  where
    zero_add : (n : ℕ) → 0 + n ≡ n
    zero_add n = omega arith
drop_more (suc a) b [] = ap (λ n. drop n []) (suc_add a b) ∙ sym (drop_nil b)
drop_more (suc a) b (x ∷ xs) = ap (λ n. drop n (x ∷ xs)) (suc_add a b) ∙ drop_more a b xs

drop_two : (a b c : Bytes) → drop (length a + length b) (a ++ (b ++ c)) ≡ c
drop_two a b c =
    drop_more (length a) (length b) (a ++ (b ++ c))
    ∙ (ap (λ t. drop (length b) t) (drop-append a (b ++ c)) ∙ drop-append b c)

-- The search for a key ends at the first byte of its value.
pub find_key_lem :
    (json key : Bytes) (c : ℕ) (rest : Bytes)
    → is_space c ≡ false
    → HasField json key (c ∷ rest)
    → (at : ℕ) × (find_key json key ≡ some at) × (drop at json ≡ c ∷ rest)
unfolding find_key
find_key_lem json key c rest visible (before, gap, ws, gaps, spaces, found) =
    let needle = quoted_key key in
    let value = ws ++ c ∷ rest in
    let post = gap ++ b':' ∷ value in
    let split : json ≡ before ++ (needle ++ post) = cut-split needle json before post found in
    let n = length before + length needle in
    let behind : drop n json ≡ post = ap (λ t. drop n t) split ∙ drop_two before needle post in
    let long : n ≤ length json =
      omega (
        arith,
        ap length split,
        length-append before (needle ++ post),
        length-append needle post,
      ) in
    let key_at : find json needle 0 ≡ some (length before) =
      find-cut json needle 0 (omega arith) ∙ ap (place 0) found ∙ ap some (omega arith) in
    let colon_at : find json (b':' ∷ []) n ≡ some (n + length gap) =
      find-cut json (b':' ∷ []) n long
      ∙ ap (λ t. place n (cut (b':' ∷ []) t)) behind
      ∙ ap (place n) (cut_written b':' [] gap value tt (no_colon gap gaps)) in
    let m = n + (length gap + 1) in
    let value_at : drop m json ≡ value =
      drop_more n (length gap + 1) json
      ∙ (ap (λ t. drop (length gap + 1) t) behind ∙ drop_two gap (b':' ∷ []) value) in
    let skipped : skip_spaces (drop m json) ≡ length ws =
      ap skip_spaces value_at ∙ spaces_skipped ws c rest spaces visible in
    let one : n + length gap + 1 ≡ m = omega arith in
    (
      m + length ws,
      rw (key_at, find_key, colon_at, one, skipped) refl,
      drop_more m (length ws) json
          ∙ (ap (λ t. drop (length ws) t) value_at ∙ drop-append ws (c ∷ rest)),
    )
