-- ===== src/Core/Flags/Words.antt =====
-- `sanitize_frame_text` of src/lina_core.cpp: the words of a text with single spaces between them, and what it
-- leaves of the template's tokens.
use lina_cpx.Prelude.{
  ℕ, zero, suc, ◌+◌, ◌≤◌, ◌<◌, ◌≡◌, refl, sym, ap, ◌∙◌, Bool, true, false, not, ◌&&◌, List, [], ◌∷◌,
  ◌++◌, Bytes, codes, length, take, drop, length-take, length-drop, bytes_eq, bytes_eq_iff,
  Bool-cases, inl, inr, ◌==◌, if◌then◌else◌, arith,
}
use lina_cpx.Text.{substr}
use lina_cpx.Core.Flags.{is_white, strip, collapse, sanitize_frame_text}

-- the text goes on with a byte of a word
abbrev begins_word : Bytes → Bool
begins_word [] = false
begins_word (c ∷ cs) = not (is_white c)

-- a byte in front of the first word, or a word by itself
unfoldable pub glue : ℕ → Bool → List Bytes → List Bytes
glue c true (w ∷ ws) = (c ∷ w) ∷ ws
glue c true [] = (c ∷ []) ∷ []
glue c false ws = (c ∷ []) ∷ ws

unfoldable pub words : Bytes → List Bytes
words [] = []
words (c ∷ cs) = let rest = words cs in if is_white c then rest else glue c (begins_word cs) rest

unfoldable pub unwords : List Bytes → Bytes
unwords [] = []
unwords (w ∷ []) = w
unwords (w ∷ v ∷ ws) = w ++ (b' ' ∷ unwords (v ∷ ws))

abbrev behind : List Bytes → Bytes
behind [] = []
behind (w ∷ ws) = b' ' ∷ unwords (w ∷ ws)

-- what `collapse` gives for each state of its two flags
record Collapsed (xs : Bytes) : Type 0 where
  first : (p : Bool) → collapse p false xs ≡ unwords (words xs)
  apart : collapse true true xs ≡ behind (words xs)
  within :
      collapse false true xs ≡ (if begins_word xs then unwords (words xs) else behind (words xs))

unwords-glue :
    (c : ℕ) (b : Bool) (ws : List Bytes)
    → unwords (glue c b ws) ≡ c ∷ (if b then unwords ws else behind ws)
unfolding glue unwords
unwords-glue c true [] = refl
unwords-glue c true (w ∷ []) = refl
unwords-glue c true (w ∷ v ∷ ws) = refl
unwords-glue c false [] = refl
unwords-glue c false (w ∷ ws) = refl

behind-glue :
    (c : ℕ) (b : Bool) (ws : List Bytes) → behind (glue c b ws) ≡ b' ' ∷ unwords (glue c b ws)
unfolding glue
behind-glue c true [] = refl
behind-glue c true (w ∷ ws) = refl
behind-glue c false ws = refl

collapse_white :
    (p y : Bool) (c : ℕ) (cs : Bytes)
    → is_white c ≡ true
    → collapse p y (c ∷ cs) ≡ collapse true y cs
unfolding collapse
collapse_white p y c cs e = ground arith

collapse_black :
    (p y : Bool) (c : ℕ) (cs : Bytes)
    → is_white c ≡ false
    → collapse p y (c ∷ cs)
      ≡ (if p && y then b' ' ∷ (c ∷ collapse false true cs) else c ∷ collapse false true cs)
unfolding collapse
collapse_black p y c cs e = ground arith

words_white : (c : ℕ) (cs : Bytes) → is_white c ≡ true → words (c ∷ cs) ≡ words cs
unfolding words
words_white c cs e = ground arith

words_black :
    (c : ℕ) (cs : Bytes) → is_white c ≡ false → words (c ∷ cs) ≡ glue c (begins_word cs) (words cs)
unfolding words
words_black c cs e = ground arith

white-Collapsed : (c : ℕ) (cs : Bytes) → is_white c ≡ true → Collapsed cs → Collapsed (c ∷ cs)
white-Collapsed c cs e ih =
    let w = words_white c cs e in
    record {
      first = λ p. collapse_white p false c cs e ∙ ih.first true ∙ ap unwords (sym w);
      apart = collapse_white true true c cs e ∙ ih.apart ∙ ap behind (sym w);
      within =
          collapse_white false true c cs e
          ∙ ih.apart
          ∙ ap behind (sym w)
          ∙ ap (λ b. if not b then unwords (words (c ∷ cs)) else behind (words (c ∷ cs))) (sym e);
    }

no_space : (p : Bool) (xs ys : Bytes) → (if p && false then xs else ys) ≡ ys
no_space true xs ys = refl
no_space false xs ys = refl

black-Collapsed : (c : ℕ) (cs : Bytes) → is_white c ≡ false → Collapsed cs → Collapsed (c ∷ cs)
black-Collapsed c cs e ih =
    let w = words_black c cs e in
    let line : unwords (words (c ∷ cs)) ≡ c ∷ collapse false true cs =
      ap unwords w ∙ unwords-glue c (begins_word cs) (words cs) ∙ ap (λ r. c ∷ r) (sym ih.within) in
    record {
      first = λ p.
          collapse_black p false c cs e
          ∙ no_space p (b' ' ∷ (c ∷ collapse false true cs)) (c ∷ collapse false true cs)
          ∙ sym line;
      apart =
          collapse_black true true c cs e
          ∙ ap (λ r. b' ' ∷ r) (sym line)
          ∙ ap (λ r. b' ' ∷ unwords r) w
          ∙ sym (behind-glue c (begins_word cs) (words cs))
          ∙ ap behind (sym w);
      within =
          collapse_black false true c cs e
          ∙ sym line
          ∙ ap (λ b. if not b then unwords (words (c ∷ cs)) else behind (words (c ∷ cs))) (sym e);
    }

collapse-Collapsed : (xs : Bytes) → Collapsed xs
unfolding collapse words unwords
collapse-Collapsed [] = record { first = λ p. refl; apart = refl; within = refl }
collapse-Collapsed (c ∷ cs) = elim (Bool-cases (is_white c)) [
  | inl e ↦ white-Collapsed c cs e (collapse-Collapsed cs)
  | inr e ↦ black-Collapsed c cs e (collapse-Collapsed cs)
]

-- the last byte is an underscore
unfoldable pub ends_in_bar : Bytes → Bool
ends_in_bar [] = false
ends_in_bar (c ∷ []) = c == b'_'
ends_in_bar (c ∷ d ∷ cs) = ends_in_bar (d ∷ cs)

take_all : (n : ℕ) (cs : Bytes) → length cs ≤ n → take n cs ≡ cs
take_all zero [] le = refl
take_all zero (c ∷ cs) le = absurd (omega arith)
take_all (suc n) [] le = refl
take_all (suc n) (c ∷ cs) le = ap (λ r. c ∷ r) (take_all n cs (omega arith))

-- six characters are five only where no more are left
six_five : (cs : Bytes) → take 6 cs ≡ codes "<|im_" → ends_in_bar cs ≡ true
unfolding ends_in_bar
six_five cs e =
    let short : length cs ≤ 6 = omega (arith, length-take 6 cs, ap length e) in
    ap ends_in_bar (sym (take_all 6 cs short) ∙ e)

drop_nil : (i : ℕ) → drop {A = ℕ} i [] ≡ []
drop_nil zero = refl
drop_nil (suc i) = refl

ends-drop : (i : ℕ) (cs : Bytes) → ends_in_bar cs ≡ false → ends_in_bar (drop i cs) ≡ false
unfolding ends_in_bar
ends-drop zero cs e = e
ends-drop (suc i) [] e = refl
ends-drop (suc i) (c ∷ []) e = ap ends_in_bar (drop_nil i)
ends-drop (suc i) (c ∷ d ∷ cs) e = ends-drop i (d ∷ cs) e

drop_next : (i c : ℕ) (cs text : Bytes) → drop i text ≡ c ∷ cs → drop (suc i) text ≡ cs
drop_next zero c cs [] e = cc
drop_next zero c cs (x ∷ xs) e = cc
drop_next (suc i) c cs [] e = cc
drop_next (suc i) c cs (x ∷ xs) e = drop_next i c cs xs e

strip_end : (fuel i : ℕ) (text : Bytes) → drop i text ≡ [] → strip (suc fuel) text i ≡ []
unfolding strip
strip_end fuel i text e = rw (e, strip) refl

strip_kept :
    (fuel i c : ℕ) (cs text : Bytes)
    → drop i text ≡ c ∷ cs
    → bytes_eq (substr text i 6) (codes "<|im_") ≡ false
    → strip (suc fuel) text i ≡ c ∷ strip fuel text (i + 1)
unfolding strip
strip_kept fuel i c cs text e h = ground arith

nothing_left : (xs : Bytes) → length xs ≤ 0 → xs ≡ []
nothing_left [] le = refl
nothing_left (x ∷ xs) le = absurd (omega arith)

not_token :
    (i : ℕ) (text : Bytes)
    → ends_in_bar text ≡ false
    → bytes_eq (substr text i 6) (codes "<|im_") ≡ false
not_token i text plain = elim (Bool-cases (bytes_eq (substr text i 6) (codes "<|im_"))) [
  | inl hit ↦
      let bar = six_five (drop i text) ((bytes_eq_iff (substr text i 6) (codes "<|im_")).0 hit) in
      absurd (ground (arith, ends-drop i text plain))
  | inr miss ↦ miss
]

strip_plain :
    (fuel i : ℕ) (text : Bytes)
    → length text < fuel + i
    → ends_in_bar text ≡ false
    → strip fuel text i ≡ drop i text
unfolding strip
strip_plain zero i text lt plain =
    sym (nothing_left (drop i text) (omega (arith, length-drop i text)))
strip_plain (suc fuel) i text lt plain =
    by_rest (drop i text) refl (strip_plain fuel (i + 1) text (omega arith) plain)
  where
    by_rest :
        (rest : Bytes)
        → drop i text ≡ rest
        → strip fuel text (i + 1) ≡ drop (i + 1) text
        → strip (suc fuel) text i ≡ drop i text
    by_rest [] e later = strip_end fuel i text e ∙ sym e
    by_rest (c ∷ cs) e later =
        strip_kept fuel i c cs text e (not_token i text plain)
        ∙ ap (λ r. c ∷ r)
            (later ∙ ap (λ n. drop n text) {y = suc i} (omega arith) ∙ drop_next i c cs text e)
        ∙ sym e

-- A text that does not end in an underscore keeps all that it holds of the template's tokens: of such a text
-- only the white space changes, to single spaces between the words.
pub sanitize_frame_text_plain :
    (text : Bytes) → ends_in_bar text ≡ false → sanitize_frame_text text ≡ unwords (words text)
unfolding sanitize_frame_text
sanitize_frame_text_plain text plain =
    ap (λ t. collapse false false t) (strip_plain (suc (length text)) 0 text (omega arith) plain)
    ∙ (collapse-Collapsed text).first false
