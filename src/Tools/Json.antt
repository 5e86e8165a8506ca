-- ===== src/Tools/Json.antt =====
-- The tolerant JSON extraction of src/tool_engine.cpp, on byte strings. `json[i..)` is the list from
-- index `i` on, so a loop over the indices is a recursion on that list.

pub mod Fields
pub mod Written
pub mod Objects
use lina_cpx.Prelude.{
  ℕ, zero, suc, ◌+◌, ◌-◌, Bool, true, false, not, ◌&&◌, ◌||◌, [], ◌∷◌, ◌++◌, Option, none, some,
  Bytes, length, drop, take, leb, ◌==◌, if◌then◌else◌,
}
use lina_cpx.Text.{find}

-- `std::isspace` of the C locale
abbrev pub is_space : ℕ → Bool
is_space c = c == 32 || (leb 9 c && leb c 13)

-- how many bytes stand before the first that is no space
unfoldable pub skip_spaces : Bytes → ℕ
skip_spaces [] = 0
skip_spaces (c ∷ cs) = if is_space c then suc (skip_spaces cs) else 0

-- The loop's body always returns, so it runs at most once.
unfoldable pub find_key : Bytes → Bytes → Option ℕ
find_key json key =
    let needle = b'"' ∷ (key ++ b'"' ∷ []) in
    elim (find json needle 0) [
      | none ↦ none
      | some pos ↦ elim (find json (b':' ∷ []) (pos + length needle)) [
        | none ↦ none
        | some colon ↦ some (colon + 1 + skip_spaces (drop (colon + 1) json))
      ]
    ]

-- the loop inside a quoted value; the last argument is `escaped`
unfoldable pub unquote : Bytes → Bytes → Bool → Bytes
unquote [] out escaped = out
unquote (c ∷ cs) out true =
    unquote cs (out ++ (if c == b'n' then 10 else if c == b't' then 9 else c) ∷ []) false
unquote (c ∷ cs) out false =
    let wait = unquote cs out true in
    let copy = unquote cs (out ++ c ∷ []) false in
    if c == b'"' then out else if c == b'\\' then wait else copy

-- the bytes of an unquoted value
unfoldable pub bare_value : Bytes → Bytes
bare_value [] = []
bare_value (c ∷ cs) =
    if is_space c || c == b',' || c == b'}' || c == b']' then [] else c ∷ bare_value cs

-- the value that stands at the front of a text
unfoldable pub value_string : Bytes → Bytes
unfolding unquote bare_value
value_string [] = []
value_string (c ∷ cs) = if c == b'"' then unquote cs [] false else bare_value (c ∷ cs)

unfoldable pub json_string : Bytes → Bytes → Bytes
unfolding find_key value_string
json_string json key = elim (find_key json key) [
  | none ↦ []
  | some value ↦ value_string (drop value json)
]

pub data Scan : Type 0 where
  outside : Scan
  in_string : Bool → Scan

-- The index behind the brace that closes the object, counted from the front of the list; the
-- numbers are `depth` and the bytes read.
unfoldable pub close_brace : Bytes → Scan → ℕ → ℕ → Option ℕ
close_brace [] s depth i = none
close_brace (c ∷ cs) (in_string escaped) depth i =
    close_brace cs
      (if c == b'\\' && not escaped
        then in_string true
        else if c == b'"' && not escaped
        then outside
        else in_string false)
      depth (i + 1)
close_brace (c ∷ cs) outside depth i =
    let rest =
      close_brace cs (if c == b'"' then in_string false else outside)
        (if c == b'{' then depth + 1 else if c == b'}' then depth - 1 else depth) (i + 1) in
    if c == b'}' && depth == 1 then some (i + 1) else rest

-- the object that stands at the front of a text
unfoldable pub object_at : Bytes → Bytes
object_at [] = []
object_at (c ∷ cs) =
    if c == b'{'
    then elim (close_brace (c ∷ cs) outside 0 0) [ none ↦ [] | some n ↦ take n (c ∷ cs) ]
    else []

unfoldable pub json_object : Bytes → Bytes → Bytes
unfolding find_key object_at
json_object json key = elim (find_key json key) [
  | none ↦ []
  | some value ↦ object_at (drop value json)
]
