-- ===== src/Browser/Commands.antt =====
-- The commands of `BrowserDriver` in src/browser_driver.cpp: what they ask the browser, and what they make of its
-- answers. `call` asks the browser in its state of type `P` for a method with parameters; an empty answer is an error.
pub mod Sealed
mod Tests
use lina_cpx.Prelude.{
  ℕ, suc, ◌+◌, Bool, true, false, not, ◌||◌, List, [], ◌∷◌, ◌++◌, Option, none, some, Bytes, codes,
  length, drop, bytes_eq, is_empty, ◌==◌, if◌then◌else◌,
}
use lina_cpx.Prelude.Decimal.{to_string}
use lina_cpx.Text.{find}
use lina_cpx.Tools.Json.{json_string, json_object}
use lina_cpx.Browser.Base64.{base64_decode}
use lina_cpx.Browser.Handshake.{has}

abbrev pub escape_char : ℕ → Bytes
escape_char c =
    if c == b'"'
    then b'\\' ∷ b'"' ∷ []
    else if c == b'\\'
    then b'\\' ∷ b'\\' ∷ []
    else if c == 10
    then b'\\' ∷ b'n' ∷ []
    else if c == 13
    then b'\\' ∷ b'r' ∷ []
    else if c == 9
    then b'\\' ∷ b't' ∷ []
    else c ∷ []

unfoldable pub escape_json : Bytes → Bytes
escape_json [] = []
escape_json (c ∷ cs) = escape_char c ++ escape_json cs

-- the loop of `quote_js`
unfoldable pub quoted : Bytes → Bytes
quoted [] = []
quoted (c ∷ cs) =
    let rest = quoted cs in if c == b'"' || c == b'\\' then b'\\' ∷ (c ∷ rest) else c ∷ rest

unfoldable pub quote_js : Bytes → Bytes
unfolding quoted
quote_js text = b'"' ∷ (quoted text ++ b'"' ∷ [])

-- the message of `call`
unfoldable pub message_of : ℕ → Bytes → Bytes → Bytes → Bytes
message_of id method params session =
    let suffix =
      if is_empty session then [] else codes ",\"sessionId\":\"" ++ (session ++ codes "\"") in
    codes "{\"id\":"
    ++ (to_string id
        ++ (codes ",\"method\":\""
            ++ (method ++ (codes "\",\"params\":" ++ (params ++ (suffix ++ codes "}"))))))

abbrev pub url_params : Bytes → Bytes
url_params url = codes "{\"url\":\"" ++ (escape_json url ++ codes "\"}")

abbrev pub eval_params : Bytes → Bytes
eval_params expression =
    codes "{\"expression\":\""
    ++ (escape_json expression ++ codes "\",\"returnByValue\":true,\"awaitPromise\":true}")

abbrev pub text_params : Bytes → Bytes
text_params text = codes "{\"text\":\"" ++ (escape_json text ++ codes "\"}")

abbrev pub mouse_params : Bytes → Bytes → Bytes → Bytes
mouse_params kind x y =
    codes "{\"type\":\""
    ++ (kind
        ++ (codes "\",\"x\":"
            ++ (x ++ (codes ",\"y\":" ++ (y ++ codes ",\"button\":\"left\",\"clickCount\":1}")))))

abbrev pub point_script : Bytes → Bytes
point_script selector =
    codes "(()=>{const e=document.querySelector("
    ++ (quote_js selector
        ++ codes
            ");if(!e)return null;const r=e.getBoundingClientRect();return JSON.stringify({x:r.x+r.width/2,y:r.y+r.height/2});})()")

abbrev pub focus_script : Bytes → Bytes
focus_script selector =
    codes "(()=>{const e=document.querySelector("
    ++ (quote_js selector ++ codes ");if(!e)return false;e.focus();return true;})()")

-- the bytes behind the name of a bare value
unfoldable pub skip_colon : Bytes → Bytes
skip_colon [] = []
skip_colon (c ∷ cs) = let rest = skip_colon cs in if c == b' ' || c == b':' then rest else c ∷ cs

unfoldable pub until_end : Bytes → Bytes
until_end [] = []
until_end (c ∷ cs) = let rest = until_end cs in if c == b',' || c == b'}' then [] else c ∷ rest

-- the value field as it stands
unfoldable pub raw_value : Bytes → Bytes
unfolding skip_colon until_end
raw_value response = elim (find response (codes "\"value\"") 0) [
  | none ↦ codes "null"
  | some pos ↦
      let field = skip_colon (drop (pos + 7) response) in
      if is_empty field then codes "null" else until_end field
]

module _ {P : Type 0} (call : P → Bytes → Bytes → Bytes × P) where
  unfoldable pub call_ok : P → Bytes → Bytes → Bytes × P
  call_ok p method params =
      let (response, p') = call p method params in
      let error = json_string response (codes "message") in
      if is_empty response
      then (codes "cdp timeout/error", p')
      else if has (codes "\"error\"") response
      then ((if is_empty error then codes "cdp error" else codes "cdp error: " ++ error), p')
      else (codes "ok", p')

  unfoldable pub navigate : P → Bytes → Bytes × P
  unfolding call_ok escape_json
  navigate p url = call_ok p (codes "Page.navigate") (url_params url)

  unfoldable pub eval : P → Bytes → Bytes × P
  unfolding escape_json raw_value
  eval p expression =
      let (response, p') = call p (codes "Runtime.evaluate") (eval_params expression) in
      let value = json_string response (codes "value") in
      let object = json_object response (codes "value") in
      if is_empty response
      then (codes "cdp error", p')
      else if not (is_empty value)
      then (value, p')
      else if not (is_empty object)
      then (object, p')
      else (raw_value response, p')

  unfoldable pub eval_locked : P → Bytes → Bytes × P
  unfolding escape_json
  eval_locked p expression =
      let (response, p') = call p (codes "Runtime.evaluate") (eval_params expression) in
      (json_string response (codes "value"), p')

  unfoldable pub click : P → Bytes → Bytes × P
  unfolding eval_locked quote_js
  click p selector =
      let (point, p1) = eval_locked p (point_script selector) in
      let x = json_string point (codes "x") in
      let y = json_string point (codes "y") in
      let (press, p2) =
        call p1 (codes "Input.dispatchMouseEvent") (mouse_params (codes "mousePressed") x y) in
      let (release, p3) =
        call p2 (codes "Input.dispatchMouseEvent") (mouse_params (codes "mouseReleased") x y) in
      if not (has (codes "\"x\"") point)
      then (codes "element not found: " ++ selector, p1)
      else if is_empty press || is_empty release
      then (codes "cdp error on click", p3)
      else (codes "clicked " ++ selector, p3)

  unfoldable pub type_text : P → Bytes → Bytes → Bytes × P
  unfolding eval_locked quote_js escape_json
  type_text p selector text =
      let (focus, p1) = eval_locked p (focus_script selector) in
      let (done, p2) = call p1 (codes "Input.insertText") (text_params text) in
      if not (bytes_eq focus (codes "true"))
      then (codes "element not found: " ++ selector, p1)
      else if is_empty done
      then (codes "cdp error on type", p2)
      else (codes "typed into " ++ selector, p2)

  -- the answer, the file that is written, and the browser; `opens` is whether the file can be opened
  unfoldable pub screenshot : P → Bytes → Bool → Bytes × Option Bytes × P
  screenshot p path opens =
      let (response, p') =
        call p (codes "Page.captureScreenshot")
          (codes "{\"format\":\"png\",\"captureBeyondViewport\":true}") in
      let encoded = json_string response (codes "data") in
      let png = base64_decode encoded in
      if is_empty response
      then (codes "cdp error on screenshot", none, p')
      else if is_empty encoded
      then (codes "screenshot produced no data", none, p')
      else if not opens
      then (codes "cannot write: " ++ path, none, p')
      else (
        codes "saved " ++ (to_string (length png) ++ (codes " bytes to " ++ path)),
        some png,
        p',
      )
