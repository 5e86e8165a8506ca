-- ===== src/Tools/Json/Objects.antt =====
-- Object values of JSON written by the rules, against `json_object` of src/tool_engine.cpp.
use lina_cpx.Prelude.{
  ℕ, suc, ◌+◌, ◌≡◌, ◌≢◌, refl, ap, ◌∙◌, false, [], ◌∷◌, ◌++◌, append_assoc, Bytes, length,
  length-append, arith,
}
use lina_cpx.Tools.Json.{outside, in_string, close_brace}
use lina_cpx.Tools.Json.Written.{escape_byte, escape}

-- the inside of an object: bytes that are no braces or quotes, strings, and objects
mutual
  pub data Piece : Type 0 where
    plain : (c : ℕ) → c ≢ b'"' → c ≢ b'{' → c ≢ b'}' → Piece
    quoted : Bytes → Piece
    object : Pieces → Piece

  pub data Pieces : Type 0 where
    nil : Pieces
    cons : Piece → Pieces → Pieces

unfoldable mutual
  pub render : Piece → Bytes
  render (plain c _ _ _) = c ∷ []
  render (quoted s) = b'"' ∷ (escape s ++ b'"' ∷ [])
  render (object ps) = b'{' ∷ (render_all ps ++ b'}' ∷ [])

  pub render_all : Pieces → Bytes
  render_all nil = []
  render_all (cons p ps) = render p ++ render_all ps

byte_skipped :
    (c : ℕ) (rest : Bytes) (depth i : ℕ)
    → close_brace (escape_byte c ++ rest) (in_string false) depth i
      ≡ close_brace rest (in_string false) depth (i + length (escape_byte c))
unfolding close_brace escape_byte
byte_skipped c rest depth i = ground arith

string_skipped :
    (s rest : Bytes) (depth i : ℕ)
    → close_brace (escape s ++ b'"' ∷ rest) (in_string false) depth i
      ≡ close_brace rest outside depth (i + (length (escape s) + 1))
unfolding escape
string_skipped [] rest depth i =
    unfold close_brace in ap (close_brace rest outside depth) (omega arith)
string_skipped (c ∷ cs) rest depth i =
    ap (λ t. close_brace t (in_string false) depth i)
      (append_assoc (escape_byte c) (escape cs) (b'"' ∷ rest))
    ∙ byte_skipped c (escape cs ++ b'"' ∷ rest) depth i
    ∙ string_skipped cs rest depth (i + length (escape_byte c))
    ∙ ap (close_brace rest outside depth) (omega (arith, length-append (escape_byte c) (escape cs)))

quote_step :
    (rest : Bytes) (depth i : ℕ)
    → close_brace (b'"' ∷ rest) outside depth i ≡ close_brace rest (in_string false) depth (i + 1)
unfolding close_brace
quote_step rest depth i = refl

open_step :
    (rest : Bytes) (depth i : ℕ)
    → close_brace (b'{' ∷ rest) outside depth i ≡ close_brace rest outside (depth + 1) (i + 1)
unfolding close_brace
open_step rest depth i = refl

close_step :
    (rest : Bytes) (depth i : ℕ)
    → close_brace (b'}' ∷ rest) outside (suc (suc depth)) i
      ≡ close_brace rest outside (suc depth) (i + 1)
unfolding close_brace
close_step rest depth i = ground arith

plain_step :
    (c : ℕ) (rest : Bytes) (depth i : ℕ)
    → c ≢ b'"'
    → c ≢ b'{'
    → c ≢ b'}'
    → close_brace (c ∷ rest) outside depth i ≡ close_brace rest outside depth (i + 1)
unfolding close_brace
plain_step c rest depth i p q r = ground arith

-- The scan passes over what an object holds, at the same depth behind it.
mutual
  unfolding render render_all

  piece_skipped :
      (p : Piece) (rest : Bytes) (d i : ℕ)
      → close_brace (render p ++ rest) outside (suc d) i
        ≡ close_brace rest outside (suc d) (i + length (render p))
  piece_skipped (plain c p q r) rest d i = plain_step c rest (suc d) i p q r
  piece_skipped (quoted s) rest d i =
      quote_step ((escape s ++ b'"' ∷ []) ++ rest) (suc d) i
      ∙ (ap (λ t. close_brace t (in_string false) (suc d) (i + 1))
            (append_assoc (escape s) (b'"' ∷ []) rest)
          ∙ string_skipped s rest (suc d) (i + 1)
          ∙ ap (close_brace rest outside (suc d))
              (omega (arith, length-append (escape s) (b'"' ∷ []))))
  piece_skipped (object ps) rest d i =
      open_step ((render_all ps ++ b'}' ∷ []) ++ rest) (suc d) i
      ∙ (ap (λ t. close_brace t outside (suc d + 1) (i + 1))
            (append_assoc (render_all ps) (b'}' ∷ []) rest)
          ∙ ap (λ n. close_brace (render_all ps ++ b'}' ∷ rest) outside n (i + 1)) (omega arith)
          ∙ pieces_skipped ps (b'}' ∷ rest) (suc d) (i + 1)
          ∙ close_step rest d (i + 1 + length (render_all ps))
          ∙ ap (close_brace rest outside (suc d))
              (omega (arith, length-append (render_all ps) (b'}' ∷ []))))

  pieces_skipped :
      (ps : Pieces) (rest : Bytes) (d i : ℕ)
      → close_brace (render_all ps ++ rest) outside (suc d) i
        ≡ close_brace rest outside (suc d) (i + length (render_all ps))
  pieces_skipped nil rest d i = ap (close_brace rest outside (suc d)) (omega arith)
  pieces_skipped (cons p ps) rest d i =
      ap (λ t. close_brace t outside (suc d) i) (append_assoc (render p) (render_all ps) rest)
      ∙ (piece_skipped p (render_all ps ++ rest) d i
          ∙ pieces_skipped ps rest d (i + length (render p))
          ∙ ap (close_brace rest outside (suc d))
              (omega (arith, length-append (render p) (render_all ps))))
