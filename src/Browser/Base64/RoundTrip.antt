-- ===== src/Browser/Base64/RoundTrip.antt =====
-- What is encoded is decoded: the base64 of src/browser_driver.cpp.
use lina_cpx.Prelude.{
  ℕ, zero, suc, ◌+◌, ◌*◌, ◌/◌, ◌%◌, ◌^◌, ◌<◌, ◌≡◌, refl, ap, ap₂, ◌∙◌, Bool, true, false, ◌&&◌, [],
  ◌∷◌, Option, none, some, Bytes, length, get_elem?, arith, ◌==◌, ==_iff, All,
}
use lina_cpx.Browser.Base64.{
  base64_table, base64_char, triple, base64_encode, digit_of, decode_loop, base64_decode,
}

abbrev value_is : ℕ → Option ℕ → Bool
value_is v none = false
value_is v (some w) = w == v

value_is-eq : (v : ℕ) (o : Option ℕ) → value_is v o ≡ true → o ≡ some v
value_is-eq v none h = cc
value_is-eq v (some w) h = ap some ((==_iff w v).0 h)

-- each entry of a table has its place as its digit, from place `i` on
is_numbered : ℕ → Bytes → Bool
is_numbered i [] = true
is_numbered i (c ∷ cs) = value_is i (digit_of c) && is_numbered (suc i) cs

both : (a b : Bool) → (a && b) ≡ true → (a ≡ true) × (b ≡ true)
both true b h = (refl, h)
both false b h = cc

entry_at :
    (i k : ℕ) (cs : Bytes)
    → is_numbered i cs ≡ true
    → k < length cs
    → digit_of (elim (get_elem? cs k) [ none ↦ 0 | some c ↦ c ]) ≡ some (i + k)
unfolding is_numbered
entry_at i k [] h lt = absurd (omega arith)
entry_at i zero (c ∷ cs) h lt = value_is-eq i _ (both _ _ h).0 ∙ ap some (omega arith)
entry_at i (suc k) (c ∷ cs) h lt =
    entry_at (suc i) k cs (both _ _ h).1 (omega arith) ∙ ap some (omega arith)

table_is_numbered : is_numbered 0 base64_table ≡ true
unfolding is_numbered digit_of
table_is_numbered = refl

digit_of-base64_char : (v : ℕ) → v < 64 → digit_of (base64_char v) ≡ some v
unfolding base64_char
digit_of-base64_char v h = entry_at 0 v base64_table table_is_numbered h ∙ ap some (omega arith)

-- One digit, at each number of bits that a group passes through.
abbrev pending : ℕ → ℕ → ℕ
pending v buffer = buffer * 2 ^ 6 % 2 ^ 32 + v

module _ (v buffer : ℕ) (cs : Bytes) (h : v < 64) where
  from_none : decode_loop (base64_char v ∷ cs) buffer 0 ≡ decode_loop cs (pending v buffer) 6
  unfolding decode_loop
  from_none = rw (digit_of-base64_char v h, decode_loop) refl

  from_six :
      decode_loop (base64_char v ∷ cs) buffer 6
      ≡ (pending v buffer / 2 ^ 4 % 256) ∷ decode_loop cs (pending v buffer) 4
  unfolding decode_loop
  from_six = rw (digit_of-base64_char v h, decode_loop) refl

  from_four :
      decode_loop (base64_char v ∷ cs) buffer 4
      ≡ (pending v buffer / 2 ^ 2 % 256) ∷ decode_loop cs (pending v buffer) 2
  unfolding decode_loop
  from_four = rw (digit_of-base64_char v h, decode_loop) refl

  from_two :
      decode_loop (base64_char v ∷ cs) buffer 2
      ≡ (pending v buffer / 2 ^ 0 % 256) ∷ decode_loop cs (pending v buffer) 0
  unfolding decode_loop
  from_two = rw (digit_of-base64_char v h, decode_loop) refl

decode_loop-pad :
    (cs : Bytes) (buffer bits : ℕ)
    → decode_loop (b'=' ∷ cs) buffer bits ≡ decode_loop cs buffer bits
unfolding decode_loop digit_of
decode_loop-pad cs buffer bits = refl

-- The bytes that the digits of a group give, whatever is in the buffer before them.
first_byte :
    (buffer a b c : ℕ)
    → a < 256
    → b < 256
    → c < 256
    → let t = triple a b c in
      pending (t / 2 ^ 12 % 64) (pending (t / 2 ^ 18 % 64) buffer) / 2 ^ 4 % 256 ≡ a
first_byte buffer a b c ha hb hc = omega arith

second_byte :
    (buffer a b c : ℕ)
    → a < 256
    → b < 256
    → c < 256
    → let t = triple a b c in
      pending (t / 2 ^ 6 % 64) (pending (t / 2 ^ 12 % 64) buffer) / 2 ^ 2 % 256 ≡ b
second_byte buffer a b c ha hb hc = omega arith

third_byte :
    (buffer a b c : ℕ)
    → a < 256
    → b < 256
    → c < 256
    → let t = triple a b c in
      pending (t / 1 % 64) (pending (t / 2 ^ 6 % 64) buffer) / 2 ^ 0 % 256 ≡ c
third_byte buffer a b c ha hb hc = omega arith

decode_loop-nil : (buffer bits : ℕ) → decode_loop [] buffer bits ≡ []
unfolding decode_loop
decode_loop-nil buffer bits = refl

decode_loop-encode :
    (xs : Bytes) (buffer : ℕ) → All (λ c. c < 256) xs → decode_loop (base64_encode xs) buffer 0 ≡ xs
unfolding base64_encode
decode_loop-encode [] buffer h = decode_loop-nil buffer 0
decode_loop-encode (a ∷ []) buffer (ha, h) =
    let t = triple a 0 0 in
    let v1 = t / 2 ^ 18 % 64 in
    let v2 = t / 2 ^ 12 % 64 in
    let b2 = pending v2 (pending v1 buffer) in
    from_none v1 buffer _ (omega arith)
    ∙ from_six v2 (pending v1 buffer) _ (omega arith)
    ∙ ap₂ (λ x xs. x ∷ xs) (first_byte buffer a 0 0 ha (omega arith) (omega arith))
        (decode_loop-pad _ b2 4 ∙ decode_loop-pad [] b2 4 ∙ decode_loop-nil b2 4)
decode_loop-encode (a ∷ b ∷ []) buffer (ha, (hb, h)) =
    let t = triple a b 0 in
    let v1 = t / 2 ^ 18 % 64 in
    let v2 = t / 2 ^ 12 % 64 in
    let v3 = t / 2 ^ 6 % 64 in
    let b1 = pending v1 buffer in
    let b2 = pending v2 b1 in
    let b3 = pending v3 b2 in
    from_none v1 buffer _ (omega arith)
    ∙ from_six v2 b1 _ (omega arith)
    ∙ ap₂ (λ x xs. x ∷ xs) (first_byte buffer a b 0 ha hb (omega arith))
        (from_four v3 b2 _ (omega arith)
          ∙ ap₂ (λ x xs. x ∷ xs) (second_byte b1 a b 0 ha hb (omega arith))
              (decode_loop-pad [] b3 2 ∙ decode_loop-nil b3 2))
decode_loop-encode (a ∷ b ∷ c ∷ rest) buffer (ha, (hb, (hc, h))) =
    let t = triple a b c in
    let v1 = t / 2 ^ 18 % 64 in
    let v2 = t / 2 ^ 12 % 64 in
    let v3 = t / 2 ^ 6 % 64 in
    let v4 = t / 1 % 64 in
    let b1 = pending v1 buffer in
    let b2 = pending v2 b1 in
    let b3 = pending v3 b2 in
    from_none v1 buffer _ (omega arith)
    ∙ from_six v2 b1 _ (omega arith)
    ∙ ap₂ (λ x xs. x ∷ xs) (first_byte buffer a b c ha hb hc)
        (from_four v3 b2 _ (omega arith)
          ∙ ap₂ (λ x xs. x ∷ xs) (second_byte b1 a b c ha hb hc)
              (from_two v4 b3 _ (omega arith)
                ∙ ap₂ (λ x xs. x ∷ xs) (third_byte b2 a b c ha hb hc)
                    (decode_loop-encode rest (pending v4 b3) h)))

-- Every byte string comes back from its base64 text.
pub base64_decode-base64_encode :
    (xs : Bytes) → All (λ c. c < 256) xs → base64_decode (base64_encode xs) ≡ xs
unfolding base64_decode
base64_decode-base64_encode xs h = decode_loop-encode xs 0 h
