-- ===== src/Tools/Json/Written.antt =====
-- JSON written by the rules, against the extraction of src/tool_engine.cpp: a field's string is
-- read back with its escapes undone.
use lina_cpx.Prelude.{
  ℕ, ◌≡◌, refl, sym, ap, ◌∙◌, false, [], ◌∷◌, ◌++◌, append_assoc, append-nil, Bytes, arith, ◌==◌,
  if◌then◌else◌,
}
use lina_cpx.Tools.Json.{unquote, value_string, json_string}
use lina_cpx.Tools.Json.Fields.{HasField, find_key_lem}

-- how a writer puts one byte of a string between quotes
unfoldable pub escape_byte : ℕ → Bytes
escape_byte c =
    if c == b'"'
    then b'\\' ∷ b'"' ∷ []
    else if c == b'\\'
    then b'\\' ∷ b'\\' ∷ []
    else if c == 10
    then b'\\' ∷ b'n' ∷ []
    else if c == 9
    then b'\\' ∷ b't' ∷ []
    else c ∷ []

unfoldable pub escape : Bytes → Bytes
unfolding escape_byte
escape [] = []
escape (c ∷ cs) = escape_byte c ++ escape cs

unquote-escape_byte :
    (c : ℕ) (rest out : Bytes)
    → unquote (escape_byte c ++ rest) out false ≡ unquote rest (out ++ c ∷ []) false
unfolding unquote escape_byte
unquote-escape_byte c rest out = ground arith

unquote-escape : (s rest out : Bytes) → unquote (escape s ++ b'"' ∷ rest) out false ≡ out ++ s
unfolding escape
unquote-escape [] rest out = unfold unquote in sym (append-nil out)
unquote-escape (c ∷ cs) rest out =
    ap (λ t. unquote t out false) (append_assoc (escape_byte c) (escape cs) (b'"' ∷ rest))
    ∙ unquote-escape_byte c (escape cs ++ b'"' ∷ rest) out
    ∙ unquote-escape cs rest (out ++ c ∷ [])
    ∙ append_assoc out (c ∷ []) cs

-- A string field written with its escapes is read back exactly, whatever its bytes.
json_string-escape :
    (json key s rest : Bytes)
    → HasField json key (b'"' ∷ (escape s ++ b'"' ∷ rest))
    → json_string json key ≡ s
unfolding json_string value_string
json_string-escape json key s rest written =
    let (at, found, here) = find_key_lem json key b'"' (escape s ++ b'"' ∷ rest) refl written in
    rw (found, json_string, here) (unquote-escape s rest [])
