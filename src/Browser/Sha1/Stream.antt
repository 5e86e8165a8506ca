-- ===== src/Browser/Sha1/Stream.antt =====
-- SHA-1 of src/browser_driver.cpp byte by byte: in whatever pieces the bytes come, they are fed one after the
-- other.
use Prim.Native.Nat.{min}
use lina_cpx.Prelude.{
  ℕ, zero, suc, ◌+◌, ◌-◌, ◌%◌, ◌^◌, ◌≤◌, ◌<◌, ◌≡◌, refl, sym, ap, subst, ◌∙◌, Bool, true, false, [],
  ◌∷◌, ◌++◌, append_assoc, Bytes, length, take, drop, length-append, length-take, length-drop,
  take-append-drop, ◌==◌, if◌then◌else◌, arith,
}
use lina_cpx.Browser.Sha1.{Words, Sha1, process_block, if_full, update_loop, update}

-- the block so far with the words that it goes into
abbrev pub Core : Type 0
Core = Bytes × Words

abbrev pub core_of : Sha1 → Core
core_of s = (s.block, s.h)

abbrev pub full_core : Bytes → Words → Core
full_core block h = if length block == 64 then ([], process_block block h) else (block, h)

abbrev pub feed : ℕ → Core → Core
feed x (block, h) = full_core (block ++ x ∷ []) h

unfoldable pub feed_all : Bytes → Core → Core
feed_all [] k = k
feed_all (x ∷ xs) k = feed_all xs (feed x k)

if_full-core : (block : Bytes) (s : Sha1) → core_of (if_full block s) ≡ full_core block s.h
if_full-core block s = by_size (length block == 64)
  where
    by_size :
        (b : Bool)
        → core_of (
            if b
            then (record s { h = process_block block s.h; block = [] })
            else (record s { block = block }))
          ≡ (if b then ([], process_block block s.h) else (block, s.h))
    by_size true = refl
    by_size false = refl

not_full : (n : ℕ) → n < 64 → (n == 64) ≡ false
not_full n h = ground arith

full_core-short : (block : Bytes) (h : Words) → length block < 64 → full_core block h ≡ (block, h)
full_core-short block h lt =
    ap (λ b. if b then ([], process_block block h) else (block, h)) (not_full (length block) lt)

-- bytes that fit into the block come to the same at once
feed_all-fits :
    (x : ℕ) (xs block : Bytes) (h : Words)
    → length block + suc (length xs) ≤ 64
    → feed_all (x ∷ xs) (block, h) ≡ full_core (block ++ x ∷ xs) h
unfolding feed_all
feed_all-fits x [] block h le = refl
feed_all-fits x (y ∷ ys) block h le =
    ap (λ k. feed_all (y ∷ ys) k)
      (full_core-short (block ++ x ∷ []) h (omega (arith, length-append block (x ∷ []))))
    ∙ feed_all-fits y ys (block ++ x ∷ []) h (omega (arith, length-append block (x ∷ [])))
    ∙ ap (λ b. full_core b h) (append_assoc block (x ∷ []) (y ∷ ys))

pub feed_all-append :
    (xs ys : Bytes) (k : Core) → feed_all (xs ++ ys) k ≡ feed_all ys (feed_all xs k)
unfolding feed_all
feed_all-append [] ys k = refl
feed_all-append (x ∷ xs) ys k = feed_all-append xs ys (feed x k)

pub full_core-room :
    (block : Bytes) (h : Words) → length block ≤ 64 → length (full_core block h).0 < 64
full_core-room block h le = by_size (length block == 64) refl
  where
    by_size :
        (b : Bool)
        → (length block == 64) ≡ b
        → length (if◌then◌else◌ {A = Core} b ([], process_block block h) (block, h)).0 < 64
    by_size true e = omega arith
    by_size false e = ground arith

pub feed_all-room : (xs : Bytes) (k : Core) → length k.0 < 64 → length (feed_all xs k).0 < 64
unfolding feed_all
feed_all-room [] k lt = lt
feed_all-room (x ∷ xs) (block, h) lt =
    feed_all-room xs (feed x (block, h))
      (full_core-room (block ++ x ∷ []) h (omega (arith, length-append block (x ∷ []))))

-- a first piece that is not empty
pub feed_piece :
    (n : ℕ) (x : ℕ) (xs block : Bytes) (h : Words)
    → 0 < n
    → length block + n ≤ 64
    → feed_all (take n (x ∷ xs)) (block, h) ≡ full_core (block ++ take n (x ∷ xs)) h
feed_piece zero x xs block h lt le = absurd (omega arith)
feed_piece (suc n) x xs block h lt le =
    feed_all-fits x (take n xs) block h (omega (arith, length-take n xs))

round-core :
    (n : ℕ) (x : ℕ) (xs : Bytes) (s : Sha1)
    → 0 < n
    → length s.block + n ≤ 64
    → core_of (if_full (s.block ++ take n (x ∷ xs)) s) ≡ feed_all (take n (x ∷ xs)) (core_of s)
round-core n x xs s lt le =
    if_full-core (s.block ++ take n (x ∷ xs)) s ∙ sym (feed_piece n x xs s.block s.h lt le)

round-room :
    (n : ℕ) (xs : Bytes) (s : Sha1)
    → length s.block + n ≤ 64
    → length (if_full (s.block ++ take n xs) s).block < 64
round-room n xs s le =
    subst (λ k. length k.0 < 64) (sym (if_full-core (s.block ++ take n xs) s))
      (full_core-room (s.block ++ take n xs) s.h
        (omega (arith, length-append s.block (take n xs), length-take n xs)))

pub update_loop-core :
    (fuel : ℕ) (xs : Bytes) (s : Sha1)
    → length xs ≤ fuel
    → length s.block < 64
    → core_of (update_loop fuel xs s) ≡ feed_all xs (core_of s)
unfolding update_loop feed_all
update_loop-core zero [] s le room = refl
update_loop-core zero (x ∷ xs) s le room = absurd (omega arith)
update_loop-core (suc fuel) [] s le room = refl
update_loop-core (suc fuel) (x ∷ xs) s le room =
    let n = min (length (x ∷ xs)) (64 - length s.block) in
    let piece = take n (x ∷ xs) in
    let rest = drop n (x ∷ xs) in
    let fits : length s.block + n ≤ 64 = omega arith in
    update_loop-core fuel rest (if_full (s.block ++ piece) s)
      (omega (arith, length-drop n (x ∷ xs))) (round-room n (x ∷ xs) s fits)
    ∙ ap (λ k. feed_all rest k) (round-core n x xs s (omega arith) fits)
    ∙ sym (feed_all-append piece rest (core_of s))
    ∙ ap (λ ys. feed_all ys (core_of s)) (take-append-drop n (x ∷ xs))

-- `update` feeds its bytes
pub update-core :
    (xs : Bytes) (s : Sha1) → length s.block < 64 → core_of (update xs s) ≡ feed_all xs (core_of s)
unfolding update
update-core xs s room =
    update_loop-core (length xs) xs (record s { total = (s.total + length xs) % 2 ^ 64 })
      (omega arith) room

update_loop-total : (fuel : ℕ) (xs : Bytes) (s : Sha1) → (update_loop fuel xs s).total ≡ s.total
unfolding update_loop
update_loop-total zero xs s = refl
update_loop-total (suc fuel) [] s = refl
update_loop-total (suc fuel) (x ∷ xs) s =
    let n = min (length (x ∷ xs)) (64 - length s.block) in
    let next = s.block ++ take n (x ∷ xs) in
    update_loop-total fuel (drop n (x ∷ xs)) (if_full next s) ∙ by_size (length next == 64) next
  where
    by_size :
        (b : Bool) (block : Bytes)
        → (if b
            then (record s { h = process_block block s.h; block = [] })
            else (record s { block = block })).total
          ≡ s.total
    by_size true block = refl
    by_size false block = refl

-- and counts them
pub update-total : (xs : Bytes) (s : Sha1) → (update xs s).total ≡ (s.total + length xs) % 2 ^ 64
unfolding update
update-total xs s =
    update_loop-total (length xs) xs (record s { total = (s.total + length xs) % 2 ^ 64 })
