-- ===== src/Browser/Commands/Tests.antt =====
-- The commands of src/browser_driver.cpp against a browser that answers by its count of calls.
use lina_cpx.Prelude.{ℕ, zero, suc, ◌≡◌, refl, false, ◌∷◌, ◌++◌, Bytes, codes, drop}
use lina_cpx.Text.{find}
use lina_cpx.Tools.Json.{json_string, skip_spaces}
use lina_cpx.Browser.Handshake.{has}
use lina_cpx.Browser.Commands.{escape_json, quote_js, click}
use lina_cpx.Browser.Commands.Sealed.{behind_string, escape_json_sealed}

abbrev sly : Bytes
sly = codes "\");alert(\"\\"

escape_json_sealed_example :
    (behind_string false (escape_json sly ++ b'"' ∷ codes ")") ≡ codes ")")
    × (behind_string false (drop 1 (quote_js sly ++ codes ")")) ≡ codes ")")
escape_json_sealed_example = escape_json_sealed sly (codes ")")

-- the answer to a script, and to anything else
abbrev answers : ℕ → Bytes → Bytes → Bytes × ℕ
answers n method params = elim n [
  | zero ↦ (codes "{\"value\":\"{\\\"x\\\":12,\\\"y\\\":7}\"}", 1)
  | suc k ↦ (codes "{}", suc (suc k))
]

clicked : click answers 0 (codes "#a") ≡ (codes "clicked #a", 3)
unfolding click has find json_string skip_spaces
clicked = refl
