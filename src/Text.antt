-- ===== src/Text.antt =====
-- `std::string` searching, cutting and erasing, over byte lists.
pub mod Search
use lina_cpx.Prelude.{
  ℕ, zero, suc, ◌+◌, Bool, true, false, ◌&&◌, [], ◌∷◌, ◌++◌, Option, none, some, Bytes, length,
  take, drop, ltb, ◌==◌, if◌then◌else◌,
}

-- The text begins with the pattern.
unfoldable pub is_prefix : Bytes → Bytes → Bool
is_prefix [] text = true
is_prefix (p ∷ ps) [] = false
is_prefix (p ∷ ps) (c ∷ cs) = p == c && is_prefix ps cs

-- The first place from index `i` on, where the list is the text from there.
unfoldable pub find_from : Bytes → Bytes → ℕ → Option ℕ
find_from pat [] i = if is_prefix pat [] then some i else none
find_from pat (c ∷ cs) i = if is_prefix pat (c ∷ cs) then some i else find_from pat cs (i + 1)

-- `text.find(pat, pos)`; `none` is `npos`.
unfoldable pub find : Bytes → Bytes → ℕ → Option ℕ
unfolding find_from is_prefix
find text pat pos = if ltb (length text) pos then none else find_from pat (drop pos text) pos

-- `text.substr(pos, n)`
abbrev pub substr : Bytes → ℕ → ℕ → Bytes
substr text pos n = take n (drop pos text)

-- `text.erase(pos, n)`
abbrev pub erase : Bytes → ℕ → ℕ → Bytes
erase text pos n = take pos text ++ drop (pos + n) text
