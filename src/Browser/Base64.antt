-- ===== src/Browser/Base64.antt =====
-- Base64 of src/browser_driver.cpp. A byte is a number below 256; what the source puts together by `|`
-- has no bits in common, so that it is a sum.
pub mod RoundTrip
use lina_cpx.Prelude.{
  ℕ, ◌+◌, ◌-◌, ◌*◌, ◌/◌, ◌%◌, ◌^◌, Bool, ◌&&◌, ◌||◌, List, [], ◌∷◌, ◌++◌, Option, none, some, Bytes,
  codes, get_elem?, leb, ltb, ◌==◌, if◌then◌else◌, true, false,
}

abbrev pub base64_table : Bytes
base64_table = codes "ABCDEFGHIJKLMNOPQRSTUVWXYZabcdefghijklmnopqrstuvwxyz0123456789+/"

-- `kBase64Table[v]`, for a `v` of six bits
unfoldable pub base64_char : ℕ → ℕ
base64_char v = elim (get_elem? base64_table v) [ none ↦ 0 | some c ↦ c ]

abbrev pub triple : ℕ → ℕ → ℕ → ℕ
triple a b c = a * 2 ^ 16 + b * 2 ^ 8 + c

-- `kBase64Table[(t >> n) & 0x3f]`, the shift written as a division
abbrev pub sextet : ℕ → ℕ → ℕ
sextet t d = base64_char (t / d % 64)

unfoldable pub base64_encode : Bytes → Bytes
unfolding base64_char
base64_encode [] = []
base64_encode (a ∷ []) =
    let t = triple a 0 0 in sextet t (2 ^ 18) ∷ sextet t (2 ^ 12) ∷ b'=' ∷ b'=' ∷ []
base64_encode (a ∷ b ∷ []) =
    let t = triple a b 0 in sextet t (2 ^ 18) ∷ sextet t (2 ^ 12) ∷ sextet t (2 ^ 6) ∷ b'=' ∷ []
base64_encode (a ∷ b ∷ c ∷ rest) =
    let t = triple a b c in
    sextet t (2 ^ 18) ∷ sextet t (2 ^ 12) ∷ sextet t (2 ^ 6) ∷ sextet t 1 ∷ base64_encode rest

-- `none` for the -1 of a byte that is no digit
unfoldable pub base64_value : ℕ → Option ℕ
base64_value c =
    if leb b'A' c && leb c b'Z'
    then some (c - b'A')
    else if leb b'a' c && leb c b'z'
    then some (c - b'a' + 26)
    else if leb b'0' c && leb c b'9'
    then some (c - b'0' + 52)
    else if c == b'+'
    then some 62
    else if c == b'/'
    then some 63
    else none

abbrev pub is_skipped : ℕ → Bool
is_skipped c = c == b'=' || c == 10 || c == 13

-- the value of a byte that is not passed over
unfoldable pub digit_of : ℕ → Option ℕ
unfolding base64_value
digit_of c = if is_skipped c then none else base64_value c

-- the loop, with the 32-bit buffer and how many of its bits are still to be used
unfoldable pub decode_loop : Bytes → ℕ → ℕ → Bytes
unfolding digit_of
decode_loop [] buffer bits = []
decode_loop (c ∷ cs) buffer bits = elim (digit_of c) [
  | none ↦ decode_loop cs buffer bits
  | some v ↦
      let buffer' = buffer * 2 ^ 6 % 2 ^ 32 + v in
      elim (leb 8 (bits + 6)) [
        | true ↦ (buffer' / 2 ^ (bits + 6 - 8) % 256) ∷ decode_loop cs buffer' (bits + 6 - 8)
        | false ↦ decode_loop cs buffer' (bits + 6)
      ]
]

unfoldable pub base64_decode : Bytes → Bytes
unfolding decode_loop
base64_decode input = decode_loop input 0 0
