-- ===== src/Browser/Commands/Sealed.antt =====
-- No text that src/browser_driver.cpp puts into a string of JSON or of a script leaves that string.
use lina_cpx.Prelude.{
  ℕ, ◌≡◌, refl, ap, ◌∙◌, Bool, true, false, [], ◌∷◌, ◌++◌, append_assoc, Bytes, drop, ◌==◌,
  if◌then◌else◌, arith,
}
use lina_cpx.Browser.Commands.{escape_char, escape_json, quoted, quote_js}

-- What follows the string that one is in: a quote ends it, and a backslash takes the next byte with it.
unfoldable pub behind_string : Bool → Bytes → Bytes
behind_string escaped [] = []
behind_string true (c ∷ cs) = behind_string false cs
behind_string false (c ∷ cs) =
    let rest = behind_string (c == b'\\') cs in if c == b'"' then cs else rest

escape_char_stays :
    (c : ℕ) (cs : Bytes) → behind_string false (escape_char c ++ cs) ≡ behind_string false cs
unfolding behind_string
escape_char_stays c cs = ground arith

escape_json_stays :
    (text rest : Bytes) → behind_string false (escape_json text ++ b'"' ∷ rest) ≡ rest
unfolding behind_string escape_json
escape_json_stays [] rest = refl
escape_json_stays (c ∷ cs) rest =
    ap (behind_string false) (append_assoc (escape_char c) (escape_json cs) (b'"' ∷ rest))
    ∙ escape_char_stays c (escape_json cs ++ b'"' ∷ rest)
    ∙ escape_json_stays cs rest

quoted_stays : (text rest : Bytes) → behind_string false (quoted text ++ b'"' ∷ rest) ≡ rest
unfolding behind_string quoted
quoted_stays [] rest = refl
quoted_stays (c ∷ cs) rest = ground (arith, quoted_stays cs rest)

-- Whatever a text holds, quotes and backslashes included: escaped by `escape_json` between two quotes, or quoted
-- by `quote_js`, to a reader that goes by quotes and backslashes it is one string, which ends at the quote behind it
-- and nowhere before.
pub escape_json_sealed :
    (text rest : Bytes)
    → (behind_string false (escape_json text ++ b'"' ∷ rest) ≡ rest)
      × (behind_string false (drop 1 (quote_js text ++ rest)) ≡ rest)
unfolding quote_js
escape_json_sealed text rest = (
  escape_json_stays text rest,
  ap (behind_string false) (append_assoc (quoted text) (b'"' ∷ []) rest) ∙ quoted_stays text rest,
)
