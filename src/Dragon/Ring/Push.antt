-- ===== src/Dragon/Ring/Push.antt =====
-- `ring_push` of include/dragon_ring.h against the bounded queue of frames.
use lina_cpx.Prelude.{
  ◌+◌, ◌^◌, ◌≤◌, ◌<◌, ◌≡◌, refl, sym, subst, true, false, List, [], ◌∷◌, ◌++◌, length, All-append,
  Bool-cases, inl, inr, ltb→le, le→ltb, arith, lt→ltb, ltb,
}
use lina_cpx.Dragon.Ring.{
  RingBuffer, ring_payload_size, ring_frame_max, u32, u64, sub64, write_frame, ring_push,
}
use lina_cpx.Dragon.Ring.Memory.{Spells}
use lina_cpx.Dragon.Ring.Queue.{Frame, frame_len, encode_all, size, has_room, enqueue}
use lina_cpx.Dragon.Ring.Frames.{Holds, size-append, write_frame-Spells}

-- The arithmetic of `ring_push` on a ring that holds a queue: nothing wraps.
push_arith :
    {rb : RingBuffer} {q : List Frame} (f : Frame)
    → Holds rb q
    → rb.head + frame_len f < 2 ^ 64
    → length f.bytes ≤ ring_frame_max
    → (u32 (frame_len f) ≡ frame_len f)
      × (u64 (sub64 rb.head rb.tail + frame_len f) ≡ size q + frame_len f)
      × (u64 (rb.head + frame_len f) ≡ rb.head + frame_len f)
push_arith f v h k = (omega arith, omega (arith, v.filled, v.fits), omega arith)

push_taken :
    (rb : RingBuffer) (q : List Frame) (f : Frame)
    → Holds rb q
    → rb.head + frame_len f < 2 ^ 64
    → length f.bytes ≤ ring_frame_max
    → size q + frame_len f ≤ ring_payload_size
    → ring_push rb f.type f.bytes ≡ (
      true,
      record rb {
        head = rb.head + frame_len f;
        payload = write_frame rb.payload rb.head (frame_len f) f.type f.bytes;
      },
    )
unfolding ring_push
push_taken rb q f v h short fits =
    let (total, used, head) = push_arith f v h short in
    rw (total, used, head, le→ltb _ _ short, le→ltb _ _ fits)

taken-Holds :
    {rb : RingBuffer} {q : List Frame} (f : Frame)
    → Holds rb q
    → rb.head + frame_len f < 2 ^ 64
    → length f.bytes ≤ ring_frame_max
    → size q + frame_len f ≤ ring_payload_size
    → Holds
        (record rb {
          head = rb.head + frame_len f;
          payload = write_frame rb.payload rb.head (frame_len f) f.type f.bytes;
        })
        (q ++ f ∷ [])
taken-Holds {rb} {q} f v h short fits = record {
  filled = omega (arith, size-append q (f ∷ []), v.filled);
  fits = omega (arith, size-append q (f ∷ []));
  spelled =
      subst
        (λ n.
          Spells (write_frame rb.payload n (frame_len f) f.type f.bytes) rb.tail
            (encode_all (q ++ f ∷ [])))
        (sym v.filled)
        (write_frame-Spells rb.payload rb.tail q f fits (omega (arith, v.filled)) v.spelled);
  legal = All-append (λ g. length g.bytes ≤ ring_frame_max) q (f ∷ []) v.legal (short, tt);
  no_wrap = omega arith;
}

push_refused :
    (rb : RingBuffer) (q : List Frame) (f : Frame)
    → Holds rb q
    → rb.head + frame_len f < 2 ^ 64
    → has_room q f ≡ false
    → ring_push rb f.type f.bytes ≡ (false, rb)
unfolding ring_push
push_refused rb q f v h full = elim (Bool-cases (ltb ring_frame_max (length f.bytes))) [
  | inl long ↦ rw long
  | inr short ↦
      let (total, used, head) = push_arith f v h (ltb→le _ _ short) in
      rw (total, used, short, lt→ltb ring_payload_size (size q + frame_len f) (ground arith))
]

has_room_cases :
    (q : List Frame) (f : Frame)
    → has_room q f ≡ true
    → (length f.bytes ≤ ring_frame_max) × (size q + frame_len f ≤ ring_payload_size)
has_room_cases q f h = ground arith

-- On a ring that holds a queue, with a head that does not wrap at 2^64: ring_push takes a message
-- exactly when the queue has room for it and appends it; otherwise the ring stays as it was.
pub push_refines :
    (rb : RingBuffer) (q : List Frame) (f : Frame)
    → Holds rb q
    → rb.head + frame_len f < 2 ^ 64
    → let (done, rb') = ring_push rb f.type f.bytes in
      (done ≡ (enqueue q f).0) × Holds rb' (enqueue q f).1
push_refines rb q f v h = elim (Bool-cases (has_room q f)) [
  | inl room ↦
      let (short, fits) = has_room_cases q f room in
      rw (push_taken rb q f v h short fits, room) (refl, taken-Holds f v h short fits)
  | inr full ↦ rw (push_refused rb q f v h full, full) (refl, v)
]

pub head-push :
    (rb : RingBuffer) (q : List Frame) (f : Frame)
    → Holds rb q
    → rb.head + frame_len f < 2 ^ 64
    → (ring_push rb f.type f.bytes).1.head ≤ rb.head + frame_len f
unfolding ring_push
head-push rb q f v h = ground arith
