-- ===== src/Browser/WebSocket/Frames.antt =====
-- That what `send_text` of src/browser_driver.cpp writes is what `receive` reads.
use lina_cpx.Prelude.Xor.{bit_xor_twice}
use lina_cpx.Prelude.{
  ℕ, suc, ◌+◌, ◌/◌, ◌%◌, ◌^◌, ◌≤◌, ◌<◌, ◌≡◌, refl, sym, ap, ap₂, ◌∙◌, Bool, true, false, [], ◌∷◌,
  ◌++◌, append_assoc, some, Bytes, length, take-append, drop-append, leb, ltb, ltb→lt, ◌==◌, arith,
}
use lina_cpx.Browser.WebSocket.{
  Frame, mask_byte, masked, big_endian, length_bytes, text_frame, recv_exact, read_length,
  recv_length, recv_mask, unmasked, high_bit, read_frame,
}

pub masked_twice : (mask : Bytes) (i : ℕ) (cs : Bytes) → masked mask i (masked mask i cs) ≡ cs
unfolding masked
masked_twice mask i [] = refl
masked_twice mask i (c ∷ cs) =
    ap₂ (λ x xs. x ∷ xs) (bit_xor_twice c (mask_byte mask (i % 4))) (masked_twice mask (suc i) cs)

pub length-masked : (mask : Bytes) (i : ℕ) (cs : Bytes) → length (masked mask i cs) ≡ length cs
unfolding masked
length-masked mask i [] = refl
length-masked mask i (c ∷ cs) = ap suc (length-masked mask (suc i) cs)

leb-length-append : (xs ys : Bytes) → leb (length xs) (length (xs ++ ys)) ≡ true
leb-length-append [] ys = ground arith
leb-length-append (x ∷ xs) ys = ground (arith, leb-length-append xs ys)

pub recv_exact-append : (xs ys : Bytes) → recv_exact (length xs) (xs ++ ys) ≡ some (xs, ys)
unfolding recv_exact
recv_exact-append xs ys = rw (leb-length-append xs ys, take-append xs ys, drop-append xs ys) refl

-- a frame is read when each of its parts is
read_frame_parts :
    (h0 h1 len : ℕ) (bs r1 mask r2 body rest : Bytes)
    → recv_length (h1 % 128) bs ≡ some (len, r1)
    → recv_mask (high_bit h1) r1 ≡ some (mask, r2)
    → recv_exact len r2 ≡ some (body, rest)
    → read_frame (h0 ∷ h1 ∷ bs)
      ≡ some (
        record { fin = high_bit h0; opcode = h0 % 16; body = unmasked (high_bit h1) mask body },
        rest,
      )
unfolding read_frame mask_byte
read_frame_parts h0 h1 len bs r1 mask r2 body rest l m b =
    rw (recv_exact-append (h0 ∷ h1 ∷ []) bs, l, m, b) refl

-- the bytes of a length, read back
module _ (len : ℕ) (rest : Bytes) where
  short : len < 126 → recv_length ((128 + len) % 128) rest ≡ some (len, rest)
  unfolding recv_length
  short h =
      let e : (128 + len) % 128 ≡ len = omega arith in
      let no : (n : ℕ) → 126 ≤ n → (len == n) ≡ false = λ n k. ground arith in
      rw (e, no 126 (omega arith), no 127 (omega arith)) refl

  medium :
      len < 65536
      → recv_length (254 % 128) ((len / 2 ^ 8 % 256) ∷ (len % 256) ∷ rest) ≡ some (len, rest)
  unfolding recv_length read_length
  medium h =
      rw (recv_exact-append ((len / 2 ^ 8 % 256) ∷ (len % 256) ∷ []) rest)
        (ap (λ n. some (n, rest)) (omega arith))

  long : len < 2 ^ 64 → recv_length (255 % 128) (big_endian 8 len ++ rest) ≡ some (len, rest)
  unfolding recv_length read_length big_endian
  long h = rw (recv_exact-append (big_endian 8 len) rest) (ap (λ n. some (n, rest)) (omega arith))

-- The header byte and the extended length that stand for a length, and that they are read as it.
record Written (len : ℕ) : Type 0 where
  byte : ℕ
  ext : Bytes
  written : length_bytes len ≡ byte ∷ ext
  is_masked : high_bit byte ≡ true
  read : (rest : Bytes) → recv_length (byte % 128) (ext ++ rest) ≡ some (len, rest)

length_bytes-Written : (len : ℕ) → len < 2 ^ 64 → Written len
length_bytes-Written len h = by_size (ltb len 126) (ltb len 65536) refl refl
  where
    by_size : (s m : Bool) → ltb len 126 ≡ s → ltb len 65536 ≡ m → Written len
    by_size true m es em = record {
      byte = 128 + len;
      ext = [];
      written = rw (es) refl;
      is_masked = let k = ltb→lt len 126 es in ground arith;
      read = λ rest. short len rest (ltb→lt len 126 es);
    }
    by_size false true es em = record {
      byte = 254;
      ext = (len / 2 ^ 8 % 256) ∷ (len % 256) ∷ [];
      written = rw (es, em) refl;
      is_masked = refl;
      read = λ rest. medium len rest (ltb→lt len 65536 em);
    }
    by_size false false es em = record {
      byte = 255;
      ext = big_endian 8 len;
      written = rw (es, em) refl;
      is_masked = refl;
      read = λ rest. long len rest h;
    }

abbrev pub text_message : Bytes → Frame
text_message text = record { fin = true; opcode = 1; body = text }

-- the frame with what follows it, its parts one after the other
laid_out :
    (mask text rest : Bytes) (w : Written (length text))
    → text_frame mask text ++ rest ≡ 0x81 ∷ w.byte ∷ w.ext ++ (mask ++ (masked mask 0 text ++ rest))
unfolding text_frame
laid_out mask text rest w =
    ap (λ l. (0x81 ∷ l ++ mask ++ masked mask 0 text) ++ rest) w.written
    ∙ ap (λ l. 0x81 ∷ w.byte ∷ l)
        (append_assoc (w.ext ++ mask) (masked mask 0 text) rest
          ∙ append_assoc w.ext mask (masked mask 0 text ++ rest))

recv_exact_all : (n : ℕ) (xs ys : Bytes) → length xs ≡ n → recv_exact n (xs ++ ys) ≡ some (xs, ys)
recv_exact_all n xs ys h = ap (λ k. recv_exact k (xs ++ ys)) (sym h) ∙ recv_exact-append xs ys

recv_mask-append :
    (b : Bool) (mask rest : Bytes)
    → b ≡ true
    → length mask ≡ 4
    → recv_mask b (mask ++ rest) ≡ some (mask, rest)
unfolding recv_mask
recv_mask-append true mask rest e h = recv_exact_all 4 mask rest h
recv_mask-append false mask rest e h = cc

pub read_frame-text_frame :
    (mask text rest : Bytes)
    → length mask ≡ 4
    → length text < 2 ^ 64
    → read_frame (text_frame mask text ++ rest) ≡ some (text_message text, rest)
read_frame-text_frame mask text rest hm ht =
    let w = length_bytes-Written (length text) ht in
    let coded = masked mask 0 text in
    let parts =
      read_frame_parts 0x81 w.byte (length text) (w.ext ++ (mask ++ (coded ++ rest)))
        (mask ++ (coded ++ rest)) mask (coded ++ rest) coded rest (w.read (mask ++ (coded ++ rest)))
        (recv_mask-append (high_bit w.byte) mask (coded ++ rest) w.is_masked hm)
        (recv_exact_all (length text) coded rest (length-masked mask 0 text)) in
    ap read_frame (laid_out mask text rest w)
    ∙ parts
    ∙ ap (λ b. some (text_message (unmasked b mask coded), rest)) w.is_masked
    ∙ ap (λ t. some (text_message t, rest)) (masked_twice mask 0 text)
