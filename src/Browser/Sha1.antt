-- ===== src/Browser/Sha1.antt =====
-- SHA-1 of src/browser_driver.cpp, which the handshake of the WebSocket checks the server's key with. A
-- `uint32_t` is a number below 2^32; the block is its bytes so far.
pub mod Stream
pub mod Digest
use Prim.Native.Nat.{bit_and, bit_or, bit_xor, min}
use lina_cpx.Prelude.{
  ℕ, zero, suc, ◌+◌, ◌-◌, ◌*◌, ◌/◌, ◌%◌, ◌^◌, Bool, true, false, List, [], ◌∷◌, ◌++◌, Option, none,
  some, Bytes, length, take, drop, get_elem?, ltb, ◌==◌, if◌then◌else◌,
}
use lina_cpx.Prelude.Bits.{complement}
use lina_cpx.Browser.WebSocket.{big_endian}

abbrev pub u32 : ℕ → ℕ
u32 x = x % 2 ^ 32

unfoldable pub rol : ℕ → ℕ → ℕ
rol v bits = bit_or (u32 (v * 2 ^ bits)) (v / 2 ^ (32 - bits))

-- `h[0]` to `h[4]`, and the five variables of a round
pub record Words : Type 0 where
  pub a : ℕ
  pub b : ℕ
  pub c : ℕ
  pub d : ℕ
  pub e : ℕ

abbrev pub initial_words : Words
initial_words = record {
  a = 0x67452301;
  b = 0xefcdab89;
  c = 0x98badcfe;
  d = 0x10325476;
  e = 0xc3d2e1f0;
}

-- the entry at an index, 0 past the end
abbrev pub word_at : List ℕ → ℕ → ℕ
word_at ws i = elim (get_elem? ws i) [ none ↦ 0 | some w ↦ w ]

-- four bytes as a word; the source puts them together by `|`, and they have no bits in common
abbrev pub word_of : ℕ → ℕ → ℕ → ℕ → ℕ
word_of p q r s = p * 2 ^ 24 + q * 2 ^ 16 + r * 2 ^ 8 + s

-- the words of a block before the latest ones, the latest first
unfoldable pub words_of : Bytes → List ℕ → List ℕ
words_of (p ∷ q ∷ r ∷ s ∷ rest) ws = words_of rest (word_of p q r s ∷ ws)
words_of [] ws = ws
words_of (p ∷ []) ws = ws
words_of (p ∷ q ∷ []) ws = ws
words_of (p ∷ q ∷ r ∷ []) ws = ws

-- so many more words of the schedule, the latest first
unfoldable pub extend : ℕ → List ℕ → List ℕ
unfolding rol
extend zero ws = ws
extend (suc n) ws = extend n (
    rol (bit_xor (bit_xor (bit_xor (word_at ws 2) (word_at ws 7)) (word_at ws 13)) (word_at ws 15))
      1
    ∷ ws)

-- `f` and `k` of round `i`
abbrev pub f_of : ℕ → Words → ℕ
f_of i v =
    if ltb i 20
    then bit_or (bit_and v.b v.c) (bit_and (complement 32 v.b) v.d)
    else if ltb i 40
    then bit_xor (bit_xor v.b v.c) v.d
    else if ltb i 60
    then bit_or (bit_or (bit_and v.b v.c) (bit_and v.b v.d)) (bit_and v.c v.d)
    else bit_xor (bit_xor v.b v.c) v.d

abbrev pub k_of : ℕ → ℕ
k_of i =
    if ltb i 20
    then 0x5a827999
    else if ltb i 40
    then 0x6ed9eba1
    else if ltb i 60
    then 0x8f1bbcdc
    else 0xca62c1d6

-- the rounds from `i` on, one for each word
unfoldable pub rounds : ℕ → List ℕ → Words → Words
unfolding rol
rounds i [] v = v
rounds i (w ∷ ws) v = rounds (suc i) ws (record {
  a = u32 (rol v.a 5 + f_of i v + v.e + k_of i + w);
  b = v.a;
  c = rol v.b 30;
  d = v.c;
  e = v.d;
})

unfoldable pub reversed : List ℕ → List ℕ → List ℕ
reversed [] ys = ys
reversed (x ∷ xs) ys = reversed xs (x ∷ ys)

-- `process_block`, the words that a block of 64 bytes leaves
unfoldable pub process_block : Bytes → Words → Words
unfolding words_of extend rounds reversed
process_block block h =
    let v = rounds 0 (reversed (extend 64 (words_of block [])) []) h in
    record {
      a = u32 (h.a + v.a);
      b = u32 (h.b + v.b);
      c = u32 (h.c + v.c);
      d = u32 (h.d + v.d);
      e = u32 (h.e + v.e);
    }

pub record Sha1 : Type 0 where
  pub h : Words
  -- in 64 bits
  pub total : ℕ
  -- the first `block_len` bytes of the block
  pub block : Bytes

abbrev pub initial : Sha1
initial = record { h = initial_words; total = 0; block = [] }

-- the end of a round of `update`: a full block is processed
abbrev pub if_full : Bytes → Sha1 → Sha1
if_full block s =
    if length block == 64
    then (record s { h = process_block block s.h; block = [] })
    else (record s { block = block })

-- The loop of `update`. A round takes a byte at least while the block is not full, so that the number of
-- bytes is fuel enough.
unfoldable pub update_loop : ℕ → Bytes → Sha1 → Sha1
update_loop zero bytes s = s
update_loop (suc fuel) [] s = s
update_loop (suc fuel) (x ∷ xs) s =
    let n = min (length (x ∷ xs)) (64 - length s.block) in
    update_loop fuel (drop n (x ∷ xs)) (if_full (s.block ++ take n (x ∷ xs)) s)

unfoldable pub update : Bytes → Sha1 → Sha1
update bytes s =
    update_loop (length bytes) bytes (record s { total = (s.total + length bytes) % 2 ^ 64 })

-- `while (block_len != 56) update(&zero, 1)`; 64 rounds are enough
unfoldable pub pad_loop : ℕ → Sha1 → Sha1
pad_loop zero s = s
pad_loop (suc fuel) s = elim (length s.block == 56) [
  | true ↦ s
  | false ↦ pad_loop fuel (update (0 ∷ []) s)
]

abbrev pub word_bytes : Words → Bytes
word_bytes h =
    big_endian 4 h.a
    ++ (big_endian 4 h.b ++ (big_endian 4 h.c ++ (big_endian 4 h.d ++ big_endian 4 h.e)))

unfoldable pub digest : Sha1 → Bytes
digest s =
    let bit_length = s.total * 8 % 2 ^ 64 in
    let padded = pad_loop 64 (update (0x80 ∷ []) s) in
    word_bytes (update (big_endian 8 bit_length) padded).h
