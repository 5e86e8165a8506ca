-- ===== src/Dragon/Ring/Memory.antt =====
-- What the byte loops of include/dragon_ring.h write and read, at monotonic positions.
use lina_cpx.Prelude.{
  ℕ, suc, ◌+◌, ◌%◌, ◌≤◌, ◌<◌, ◌≡◌, refl, ap, ap₂, subst, ◌∙◌, [], ◌∷◌, ◌++◌, Bytes, length, arith,
}
use lina_cpx.Dragon.Ring.{
  ring_payload_size, poke, write_loop, ring_write_bytes, read_loop, ring_read_bytes,
}

-- From position `p` on, round the ring, the memory holds these bytes.
abbrev pub Spells : (ℕ → ℕ) → ℕ → Bytes → Type 0
Spells mem p [] = Unit
Spells mem p (b ∷ bs) = (mem (p % ring_payload_size) ≡ b) × Spells mem (p + 1) bs

-- The same place, written another way.
pub Spells-at : (mem : ℕ → ℕ) (p q : ℕ) (bs : Bytes) → p ≡ q → Spells mem p bs → Spells mem q bs
Spells-at mem p q bs e h = subst (λ r. Spells mem r bs) e h

pub Spells-append :
    (mem : ℕ → ℕ) (p : ℕ) (xs ys : Bytes)
    → Spells mem p xs
    → Spells mem (p + length xs) ys
    → Spells mem p (xs ++ ys)
Spells-append mem p [] ys h k = Spells-at mem (p + 0) p ys (omega arith) k
Spells-append mem p (x ∷ xs) ys h k = (
  h.0,
  Spells-append mem (p + 1) xs ys h.1
      (Spells-at mem (p + suc (length xs)) (p + 1 + length xs) ys (omega arith) k),
)

pub Spells-prefix :
    (mem : ℕ → ℕ) (p : ℕ) (xs ys : Bytes) → Spells mem p (xs ++ ys) → Spells mem p xs
Spells-prefix mem p [] ys h = tt
Spells-prefix mem p (x ∷ xs) ys h = (h.0, Spells-prefix mem (p + 1) xs ys h.1)

pub Spells-suffix :
    (mem : ℕ → ℕ) (p : ℕ) (xs ys : Bytes) → Spells mem p (xs ++ ys) → Spells mem (p + length xs) ys
Spells-suffix mem p [] ys h = Spells-at mem p (p + 0) ys (omega arith) h
Spells-suffix mem p (x ∷ xs) ys h =
    Spells-at mem (p + 1 + length xs) (p + suc (length xs)) ys (omega arith)
      (Spells-suffix mem (p + 1) xs ys h.1)

write_loop_outside :
    (mem : ℕ → ℕ) (p i q : ℕ) (bs : Bytes)
    → q < p + i
    → p + i + length bs ≤ q + ring_payload_size
    → write_loop mem (p % ring_payload_size) i bs (q % ring_payload_size)
      ≡ mem (q % ring_payload_size)
unfolding write_loop
write_loop_outside mem p i q [] h k = refl
write_loop_outside mem p i q (b ∷ bs) h k =
    write_loop_outside (poke mem ((p % ring_payload_size + i) % ring_payload_size) b) p (i + 1) q bs
      (omega arith) (omega arith)
    ∙ ground arith

write_loop-Spells :
    (mem : ℕ → ℕ) (p i : ℕ) (bs : Bytes)
    → length bs ≤ ring_payload_size
    → Spells (write_loop mem (p % ring_payload_size) i bs) (p + i) bs
unfolding write_loop
write_loop-Spells mem p i [] h = tt
write_loop-Spells mem p i (b ∷ bs) h =
    let mem' = poke mem ((p % ring_payload_size + i) % ring_payload_size) b in
    (
      write_loop_outside mem' p (i + 1) (p + i) bs (omega arith) (omega arith) ∙ ground arith,
      Spells-at (write_loop mem' (p % ring_payload_size) (i + 1) bs) (p + (i + 1)) (p + i + 1) bs
          (omega arith) (write_loop-Spells mem' p (i + 1) bs (omega arith)),
    )

-- `ring_write_bytes` leaves the positions before and behind the bytes alone.
pub ring_write_bytes_outside :
    (mem : ℕ → ℕ) (p q : ℕ) (bs xs : Bytes)
    → q + length xs ≤ p
    → p + length bs ≤ q + ring_payload_size
    → Spells mem q xs
    → Spells (ring_write_bytes mem p bs) q xs
unfolding ring_write_bytes
ring_write_bytes_outside mem p q bs [] h k s = tt
ring_write_bytes_outside mem p q bs (x ∷ xs) h k s = (
  write_loop_outside mem p 0 q bs (omega arith) (omega arith) ∙ s.0,
  ring_write_bytes_outside mem p (q + 1) bs xs (omega arith) (omega arith) s.1,
)

pub ring_write_bytes-Spells :
    (mem : ℕ → ℕ) (p : ℕ) (bs : Bytes)
    → length bs ≤ ring_payload_size
    → Spells (ring_write_bytes mem p bs) p bs
unfolding ring_write_bytes
ring_write_bytes-Spells mem p bs h =
    Spells-at (ring_write_bytes mem p bs) (p + 0) p bs (omega arith)
      (write_loop-Spells mem p 0 bs h)

read_loop-Spells :
    (mem : ℕ → ℕ) (p i : ℕ) (bs : Bytes)
    → Spells mem (p + i) bs
    → read_loop mem (p % ring_payload_size) i (length bs) ≡ bs
unfolding read_loop
read_loop-Spells mem p i [] h = refl
read_loop-Spells mem p i (b ∷ bs) h = ap₂ ◌∷◌ (ap mem (omega arith) ∙ h.0) (
    read_loop-Spells mem p (i + 1) bs
      (Spells-at mem (p + i + 1) (p + (i + 1)) bs (omega arith) h.1))

-- `ring_read_bytes` returns what the memory holds.
pub ring_read_bytes-Spells :
    (mem : ℕ → ℕ) (p : ℕ) (bs : Bytes) → Spells mem p bs → ring_read_bytes mem p (length bs) ≡ bs
unfolding ring_read_bytes
ring_read_bytes-Spells mem p bs h =
    read_loop-Spells mem p 0 bs (Spells-at mem p (p + 0) bs (omega arith) h)
