-- ===== src/Browser/Sha1/Digest.antt =====
-- The digest of src/browser_driver.cpp against RFC 3174's description: the padded message cut into blocks of 64.
use lina_cpx.Prelude.{
  ℕ, zero, suc, ◌+◌, ◌-◌, ◌*◌, ◌/◌, ◌%◌, ◌^◌, ◌≤◌, ◌<◌, ◌≡◌, refl, sym, ap, subst, ◌∙◌, Bool, true,
  false, List, [], ◌∷◌, ◌++◌, append_assoc, append-nil, Bytes, length, take, drop, length-append,
  length-take, length-drop, take-append-drop, ◌==◌, ==_iff, ==_ne, if◌then◌else◌, arith,
}
use lina_cpx.Browser.WebSocket.{big_endian}
use lina_cpx.Browser.Sha1.{
  Words, Sha1, process_block, initial, initial_words, update, pad_loop, word_bytes, digest,
}
use lina_cpx.Browser.Sha1.Stream.{
  Core, core_of, full_core, full_core-room, feed_all, feed_all-append, feed_all-room, feed_piece,
  update-core, update-total,
}

unfoldable pub zeros : ℕ → Bytes
zeros zero = []
zeros (suc n) = 0 ∷ zeros n

-- The message with the bit 1, the zeros that leave 8 bytes of the last block, and its length in bits.
abbrev pub padded : Bytes → Bytes
padded xs =
    xs ++ (0x80 ∷ (zeros ((119 - length xs % 64) % 64) ++ big_endian 8 (length xs * 8 % 2 ^ 64)))

-- so many blocks, one after the other
unfoldable pub blocks : ℕ → Bytes → Words → Words
blocks zero xs h = h
blocks (suc n) xs h = blocks n (drop 64 xs) (process_block (take 64 xs) h)

abbrev pub sha1_of : Bytes → Bytes
sha1_of xs = word_bytes (blocks (length (padded xs) / 64) (padded xs) initial_words)

-- a message in pieces, and its bytes
unfoldable pub update_all : List Bytes → Sha1 → Sha1
update_all [] s = s
update_all (xs ∷ pieces) s = update_all pieces (update xs s)

unfoldable pub joined : List Bytes → Bytes
joined [] = []
joined (xs ∷ pieces) = xs ++ joined pieces

length-zeros : (n : ℕ) → length (zeros n) ≡ n
unfolding zeros
length-zeros zero = refl
length-zeros (suc n) = omega (arith, length-zeros n)

length-big_endian : (n v : ℕ) → length (big_endian n v) ≡ n
unfolding big_endian
length-big_endian zero v = refl
length-big_endian (suc n) v = omega (arith, length-big_endian n v)

-- a whole block is processed
feed_block :
    (xs : Bytes) (h : Words)
    → 64 ≤ length xs
    → feed_all (take 64 xs) ([], h) ≡ ([], process_block (take 64 xs) h)
feed_block [] h le = absurd (omega arith)
feed_block (x ∷ xs) h le =
    feed_piece 64 x xs [] h (omega arith) (omega arith)
    ∙ ap (λ b. if b then ([], process_block (take 64 (x ∷ xs)) h) else (take 64 (x ∷ xs), h))
        ((==_iff (length (take 64 (x ∷ xs))) 64).1 (omega (arith, length-take 64 (x ∷ xs))))

feed_all-blocks :
    (n : ℕ) (xs : Bytes) (h : Words)
    → length xs ≡ n * 64
    → feed_all xs ([], h) ≡ ([], blocks n xs h)
unfolding feed_all blocks
feed_all-blocks zero [] h e = refl
feed_all-blocks zero (x ∷ xs) h e = absurd (omega arith)
feed_all-blocks (suc n) xs h e =
    ap (λ ys. feed_all ys ([], h)) (sym (take-append-drop 64 xs))
    ∙ feed_all-append (take 64 xs) (drop 64 xs) ([], h)
    ∙ ap (λ k. feed_all (drop 64 xs) k) (feed_block xs h (omega arith))
    ∙ feed_all-blocks n (drop 64 xs) (process_block (take 64 xs) h)
        (omega (arith, length-drop 64 xs))

length-full_core :
    (block : Bytes) (h : Words)
    → length block ≤ 64
    → length (full_core block h).0 ≡ length block % 64
length-full_core block h le = by_size (length block == 64) refl
  where
    by_size :
        (b : Bool)
        → (length block == 64) ≡ b
        → length (if◌then◌else◌ {A = Core} b ([], process_block block h) (block, h)).0
          ≡ length block % 64
    by_size true e = omega (arith, (==_iff (length block) 64).0 e)
    by_size false e = ground arith

length-feed_all :
    (xs : Bytes) (k : Core)
    → length k.0 < 64
    → length (feed_all xs k).0 ≡ (length k.0 + length xs) % 64
unfolding feed_all
length-feed_all [] k lt = omega arith
length-feed_all (x ∷ xs) (block, h) lt =
    let next = block ++ x ∷ [] in
    let fits : length next ≡ suc (length block) = omega (arith, length-append block (x ∷ [])) in
    let room : length next ≤ 64 = omega arith in
    let fed = length-full_core next h room in
    let rest = length-feed_all xs (full_core next h) (full_core-room next h room) in omega arith

pad_done : (fuel : ℕ) (s : Sha1) → length s.block ≡ 56 → pad_loop (suc fuel) s ≡ s
unfolding pad_loop
pad_done fuel s e = rw ((==_iff (length s.block) 56).1 e, pad_loop) refl

pad_more :
    (fuel : ℕ) (s : Sha1)
    → ¬ (length s.block ≡ 56)
    → pad_loop (suc fuel) s ≡ pad_loop fuel (update (0 ∷ []) s)
unfolding pad_loop
pad_more fuel s ne = rw ((==_ne (length s.block) 56).1 ne, pad_loop) refl

-- the zeros up to 56 bytes
pad_loop-core :
    (fuel n : ℕ) (s : Sha1)
    → n < fuel
    → n ≡ (120 - length s.block) % 64
    → length s.block < 64
    → core_of (pad_loop fuel s) ≡ feed_all (zeros n) (core_of s)
unfolding feed_all zeros
pad_loop-core zero n s le e lt = absurd (omega arith)
pad_loop-core (suc fuel) zero s le e lt = ap core_of (pad_done fuel s (omega arith))
pad_loop-core (suc fuel) (suc n) s le e lt =
    let fed = update-core (0 ∷ []) s lt in
    let size : length (update (0 ∷ []) s).block ≡ (length s.block + 1) % 64 =
      ap (λ k. length k.0) fed ∙ length-feed_all (0 ∷ []) (core_of s) lt in
    ap core_of (pad_more fuel s (λ h. omega arith))
    ∙ pad_loop-core fuel n (update (0 ∷ []) s) (omega arith) (omega arith) (omega arith)
    ∙ ap (λ k. feed_all (zeros n) k) fed

-- what is fed before the digest, with its number of bytes
record Fed (xs : Bytes) (s : Sha1) : Type 0 where
  core : core_of s ≡ feed_all xs ([], initial_words)
  total : s.total ≡ length xs % 2 ^ 64

Fed-room : (xs : Bytes) (s : Sha1) → Fed xs s → length s.block ≡ length xs % 64
Fed-room xs s fed =
    let block = ap (λ (k : Core). length k.0) fed.core in
    let size = length-feed_all xs ([], initial_words) (omega arith) in omega arith

update-Fed : (xs ys : Bytes) (s : Sha1) → Fed xs s → Fed (xs ++ ys) (update ys s)
update-Fed xs ys s fed = record {
  core =
      update-core ys s (omega (arith, Fed-room xs s fed))
      ∙ ap (λ k. feed_all ys k) fed.core
      ∙ sym (feed_all-append xs ys ([], initial_words));
  total = omega (arith, update-total ys s, fed.total, length-append xs ys);
}

update_all-Fed :
    (pieces : List Bytes) (xs : Bytes) (s : Sha1)
    → Fed xs s
    → Fed (xs ++ joined pieces) (update_all pieces s)
unfolding update_all joined
update_all-Fed [] xs s fed = subst (λ ys. Fed ys s) (sym (append-nil xs)) fed
update_all-Fed (ys ∷ pieces) xs s fed =
    subst (λ zs. Fed zs (update_all pieces (update ys s))) (append_assoc xs ys (joined pieces))
      (update_all-Fed pieces (xs ++ ys) (update ys s) (update-Fed xs ys s fed))

length-padded : (xs : Bytes) → length (padded xs) ≡ length (padded xs) / 64 * 64
length-padded xs =
    let size = length xs * 8 % 2 ^ 64 in
    let n = (119 - length xs % 64) % 64 in
    omega (
      arith,
      length-append xs (0x80 ∷ (zeros n ++ big_endian 8 size)),
      length-append (zeros n) (big_endian 8 size),
      length-zeros n,
      length-big_endian 8 size,
    )

-- the padding and the length, after what was fed
padding-core :
    (xs : Bytes) (one : Sha1) (size : ℕ)
    → Fed (xs ++ 0x80 ∷ []) one
    → core_of (update (big_endian 8 size) (pad_loop 64 one))
      ≡ feed_all (big_endian 8 size) (
          feed_all
            (zeros ((119 - length xs % 64) % 64))
            (feed_all (xs ++ 0x80 ∷ []) ([], initial_words)))
padding-core xs one size fed =
    let n = (119 - length xs % 64) % 64 in
    let bytes = length-append xs (0x80 ∷ []) in
    let room = Fed-room (xs ++ 0x80 ∷ []) one fed in
    let pads = pad_loop-core 64 n one (omega arith) (omega arith) (omega arith) in
    let small : length (pad_loop 64 one).block < 64 =
      subst (λ k. length k.0 < 64) (sym pads)
        (feed_all-room (zeros n) (core_of one) (omega arith)) in
    update-core (big_endian 8 size) (pad_loop 64 one) small
    ∙ ap (λ k. feed_all (big_endian 8 size) k) (pads ∙ ap (λ k. feed_all (zeros n) k) fed.core)

feed_all-padded :
    (xs : Bytes) (k : Core)
    → feed_all
        (big_endian 8 (length xs * 8 % 2 ^ 64))
        (feed_all (zeros ((119 - length xs % 64) % 64)) (feed_all (xs ++ 0x80 ∷ []) k))
      ≡ feed_all (padded xs) k
feed_all-padded xs k =
    let size = length xs * 8 % 2 ^ 64 in
    let n = (119 - length xs % 64) % 64 in
    sym (feed_all-append (zeros n) (big_endian 8 size) (feed_all (xs ++ 0x80 ∷ []) k))
    ∙ sym (feed_all-append (xs ++ 0x80 ∷ []) (zeros n ++ big_endian 8 size) k)
    ∙ ap (λ ys. feed_all ys k) (append_assoc xs (0x80 ∷ []) (zeros n ++ big_endian 8 size))

digest-Fed : (xs : Bytes) (s : Sha1) → Fed xs s → digest s ≡ sha1_of xs
unfolding digest
digest-Fed xs s fed =
    let one = update (0x80 ∷ []) s in
    let bits : s.total * 8 % 2 ^ 64 ≡ length xs * 8 % 2 ^ 64 = omega (arith, fed.total) in
    ap (λ size. word_bytes (update (big_endian 8 size) (pad_loop 64 one)).h) bits
    ∙ ap (λ (k : Core). word_bytes k.1)
        (padding-core xs one (length xs * 8 % 2 ^ 64) (update-Fed xs (0x80 ∷ []) s fed)
          ∙ feed_all-padded xs ([], initial_words)
          ∙ feed_all-blocks (length (padded xs) / 64) (padded xs) initial_words (length-padded xs))

-- In whatever pieces a message is given to `update`, of whatever lengths, the digest is SHA-1's by its
-- description: the message padded to whole blocks, which are processed one after the other from the first words.
pub digest-update_all :
    (pieces : List Bytes) → digest (update_all pieces initial) ≡ sha1_of (joined pieces)
unfolding feed_all
digest-update_all pieces =
    digest-Fed (joined pieces) (update_all pieces initial)
      (update_all-Fed pieces [] initial (record { core = refl; total = refl }))
