-- ===== src/Dragon/Ring/Frames.antt =====
-- The ring of include/dragon_ring.h against the queue of frames: when it holds one.
use lina_cpx.Prelude.{
  ℕ, suc, ◌+◌, ◌%◌, ◌^◌, ◌≤◌, ◌<◌, ◌≡◌, refl, sym, ap, ◌∙◌, List, [], ◌∷◌, ◌++◌, append-nil,
  append_assoc, Bytes, length, length-append, All, arith, lt→ltb,
}
use lina_cpx.Dragon.Ring.{
  RingBuffer, ring_payload_size, ring_frame_max, u64, u32_bytes, write_loop, ring_write_bytes,
  ring_read_u32, write_frame,
}
use lina_cpx.Dragon.Ring.Memory.{
  Spells, Spells-at, Spells-append, ring_write_bytes_outside, ring_write_bytes-Spells,
}
use lina_cpx.Dragon.Ring.Queue.{Frame, frame_len, encode, encode_all, size}

-- The ring holds this queue: the frames stand in order between `tail` and `head`, which have not
-- wrapped, and fit.
pub record Holds (rb : RingBuffer) (q : List Frame) : Type 0 where
  pub filled : rb.head ≡ rb.tail + size q
  pub fits : size q ≤ ring_payload_size
  pub spelled : Spells rb.payload rb.tail (encode_all q)
  pub legal : All (λ f. length f.bytes ≤ ring_frame_max) q
  pub no_wrap : rb.head < 2 ^ 64

pub length-encode_all : (q : List Frame) → length (encode_all q) ≡ size q
unfolding u32_bytes
length-encode_all [] = refl
length-encode_all (f ∷ q) =
    omega (arith, length-append (f.bytes) (encode_all q), length-encode_all q)

pub size-append : (q r : List Frame) → size (q ++ r) ≡ size q + size r
size-append [] r = omega arith
size-append (f ∷ q) r = omega (arith, size-append q r)

pub encode_all-append : (q r : List Frame) → encode_all (q ++ r) ≡ encode_all q ++ encode_all r
encode_all-append [] r = refl
encode_all-append (f ∷ q) r =
    ap (λ bs. encode f ++ bs) (encode_all-append q r) ∙ sym (append_assoc (encode f) _ _)

write_frame_plain :
    (mem : ℕ → ℕ) (head total type : ℕ) (bytes : Bytes)
    → head + 5 + length bytes < 2 ^ 64
    → write_frame mem head total type bytes
      ≡ ring_write_bytes
          (ring_write_bytes (ring_write_bytes mem head (u32_bytes total)) (head + 4) (type ∷ []))
          (head + 5)
          bytes
unfolding write_frame ring_write_bytes write_loop
write_frame_plain mem head total type [] h = let e : u64 (head + 4) ≡ head + 4 = omega arith in rw e
write_frame_plain mem head total type (b ∷ bs) h =
    let e : u64 (head + 4) ≡ head + 4 = omega arith in
    let e' : u64 (head + 4 + 1) ≡ head + 5 = omega arith in
    rw (e, e', lt→ltb 0 (suc (length bs)) (omega arith))

pub ring_read_u32_lem :
    (mem : ℕ → ℕ) (p n : ℕ) → n < 2 ^ 32 → Spells mem p (u32_bytes n) → ring_read_u32 mem p ≡ n
unfolding ring_read_u32 u32_bytes
ring_read_u32_lem mem p n h s = omega (
  arith,
  ap mem (position 0 ∙ ap (λ r. r % ring_payload_size) (omega arith)) ∙ s.0,
  ap mem (position 1) ∙ s.1.0,
  ap mem (position 2 ∙ ap (λ r. r % ring_payload_size) (omega arith)) ∙ s.1.1.0,
  ap mem (position 3 ∙ ap (λ r. r % ring_payload_size) (omega arith)) ∙ s.1.1.1.0,
)
  where
    position :
        (i : ℕ) → (p % ring_payload_size + i) % ring_payload_size ≡ (p + i) % ring_payload_size
    position i = omega arith

length-u32_bytes : (n : ℕ) → length (u32_bytes n) ≡ 4
unfolding u32_bytes
length-u32_bytes n = refl

-- A frame written behind the queue's bytes: they stay, and the frame's bytes follow.
pub write_frame-Spells :
    (mem : ℕ → ℕ) (tail : ℕ) (q : List Frame) (f : Frame)
    → size q + frame_len f ≤ ring_payload_size
    → tail + size q + frame_len f < 2 ^ 64
    → Spells mem tail (encode_all q)
    → Spells
        (write_frame mem (tail + size q) (frame_len f) f.type f.bytes)
        tail
        (encode_all (q ++ f ∷ []))
write_frame-Spells mem tail q f fits no_wrap s =
    rw
      (
        write_frame_plain mem (tail + size q) (frame_len f) f.type f.bytes (omega arith),
        encode_all-append q (f ∷ []),
      )
      (Spells-append m3 tail (encode_all q) (encode f ++ []) old (
        Spells-at m3 head (tail + length (encode_all q)) _ (omega (arith, length-encode_all q))
          (rw append-nil new)))
  where
    head : ℕ
    head = tail + size q

    m1 : ℕ → ℕ
    m1 = ring_write_bytes mem head (u32_bytes (frame_len f))

    m2 : ℕ → ℕ
    m2 = ring_write_bytes m1 (head + 4) (f.type ∷ [])

    m3 : ℕ → ℕ
    m3 = ring_write_bytes m2 (head + 5) f.bytes

    here : length (encode_all q) ≡ size q
    here = length-encode_all q

    old : Spells m3 tail (encode_all q)
    old =
        ring_write_bytes_outside m2 (head + 5) tail f.bytes _ (omega (arith, here))
          (omega (arith, here))
          (ring_write_bytes_outside m1 (head + 4) tail _ _ (omega (arith, here))
            (omega (arith, here))
            (ring_write_bytes_outside mem head tail _ _ (omega (arith, here))
              (omega (arith, here, length-u32_bytes (frame_len f))) s))

    four : length (u32_bytes (frame_len f)) ≡ 4
    four = length-u32_bytes (frame_len f)

    prefixed : Spells m3 head (u32_bytes (frame_len f))
    prefixed =
        ring_write_bytes_outside m2 (head + 5) head f.bytes _ (omega (arith, four)) (omega arith) (
          ring_write_bytes_outside m1 (head + 4) head _ _ (omega (arith, four)) (omega arith)
            (ring_write_bytes-Spells mem head (u32_bytes (frame_len f)) (omega (arith, four))))

    typed : Spells m3 (head + 4) (f.type ∷ [])
    typed =
        ring_write_bytes_outside m2 (head + 5) (head + 4) f.bytes (f.type ∷ []) (omega arith)
          (omega arith) (ring_write_bytes-Spells m1 (head + 4) (f.type ∷ []) (omega arith))

    new : Spells m3 head (encode f)
    new = Spells-append m3 head (u32_bytes (frame_len f)) (f.type ∷ f.bytes) prefixed (
        Spells-at m3 (head + 4) (head + length (u32_bytes (frame_len f))) (f.type ∷ f.bytes)
          (omega (arith, four))
          (Spells-append m3 (head + 4) (f.type ∷ []) f.bytes typed (
            Spells-at m3 (head + 5) (head + 4 + 1) f.bytes (omega arith)
              (ring_write_bytes-Spells m2 (head + 5) f.bytes (omega arith)))))
