-- ===== src/Dragon/Ring/Pop.antt =====
-- `ring_pop` of include/dragon_ring.h against the bounded queue of frames, and whole histories.
use lina_cpx.Prelude.{
  ℕ, ◌+◌, ◌^◌, ◌<◌, ◌≡◌, refl, ap₂, subst, ==_iff, ◌==◌, false, List, [], ◌∷◌, ◌++◌, Option, none,
  some, append_assoc, length, arith, ◌-◌, ltb,
}
use lina_cpx.Dragon.Ring.{
  RingBuffer, ring_frame_max, ring_len_prefix, u64, sub64, u32_bytes, ring_read_bytes,
  ring_read_u32, copy_out, ring_push, ring_pop,
}
use lina_cpx.Dragon.Ring.Memory.{
  Spells, Spells-at, Spells-prefix, Spells-suffix, ring_read_bytes-Spells,
}
use lina_cpx.Dragon.Ring.Queue.{
  Frame, frame_len, encode_all, size, enqueue, popped, handed_out, dequeue, Op, push, pop, pushed,
  got, run_queue, run_ring, pushed_bytes,
}
use lina_cpx.Dragon.Ring.Frames.{Holds, ring_read_u32_lem}
use lina_cpx.Dragon.Ring.Push.{push_refines, head-push}

-- The bytes of the oldest frame, and those of the others behind it.
front_spelled :
    {rb : RingBuffer} (f : Frame) (q : List Frame)
    → Holds rb (f ∷ q)
    → Spells rb.payload rb.tail (u32_bytes (frame_len f) ++ (f.type ∷ f.bytes ++ encode_all q))
front_spelled {rb} f q v =
    subst (Spells rb.payload rb.tail)
      (append_assoc (u32_bytes (frame_len f)) (f.type ∷ f.bytes) (encode_all q)) v.spelled

behind_prefix :
    {rb : RingBuffer} (f : Frame) (q : List Frame)
    → Holds rb (f ∷ q)
    → Spells rb.payload (rb.tail + 4) (f.type ∷ f.bytes ++ encode_all q)
unfolding u32_bytes
behind_prefix {rb} f q v =
    Spells-suffix rb.payload rb.tail (u32_bytes (frame_len f)) (f.type ∷ f.bytes ++ encode_all q)
      (front_spelled f q v)

prefix_len :
    {rb : RingBuffer} (f : Frame) (q : List Frame)
    → Holds rb (f ∷ q)
    → ring_read_u32 rb.payload rb.tail ≡ frame_len f
prefix_len {rb} f q v =
    ring_read_u32_lem rb.payload rb.tail (frame_len f) (omega (arith, v.legal.0)) (
      Spells-prefix rb.payload rb.tail (u32_bytes (frame_len f)) (f.type ∷ f.bytes ++ encode_all q)
        (front_spelled f q v))

body_read :
    {rb : RingBuffer} (f : Frame) (q : List Frame)
    → Holds rb (f ∷ q)
    → ring_read_bytes rb.payload (rb.tail + 5) (length f.bytes) ≡ f.bytes
body_read {rb} f q v = ring_read_bytes-Spells rb.payload (rb.tail + 5) f.bytes (
    Spells-at rb.payload (rb.tail + 4 + 1) (rb.tail + 5) f.bytes (omega arith)
      (Spells-prefix rb.payload (rb.tail + 4 + 1) f.bytes (encode_all q) (behind_prefix f q v).1))

copy_out-handed_out :
    (f : Frame) (out : Option ℕ) → copy_out out (length f.bytes) f.bytes ≡ handed_out f out
unfolding copy_out
copy_out-handed_out f none = refl
copy_out-handed_out f (some cap) = refl

pop_taken :
    (rb : RingBuffer) (f : Frame) (q : List Frame) (out : Option ℕ)
    → Holds rb (f ∷ q)
    → ring_pop rb out ≡ (some (popped f out), record rb { tail = rb.tail + frame_len f })
unfolding ring_pop
pop_taken rb f q out v =
    let busy : (rb.head == rb.tail) ≡ false = ground (arith, v.filled) in
    let long : ltb (frame_len f) (ring_len_prefix + 1) ≡ false = ground arith in
    let short : ltb (ring_frame_max + ring_len_prefix + 1) (frame_len f) ≡ false =
      ground (arith, v.legal.0) in
    let used : sub64 rb.head rb.tail ≡ frame_len f + size q =
      omega (arith, v.filled, v.fits, v.no_wrap) in
    let whole : ltb (frame_len f + size q) (frame_len f) ≡ false = ground arith in
    let at_type : u64 (rb.tail + ring_len_prefix) ≡ rb.tail + 4 =
      omega (arith, v.filled, v.no_wrap) in
    let at_body : u64 (rb.tail + 4 + 1) ≡ rb.tail + 5 = omega (arith, v.filled, v.no_wrap) in
    let plen : frame_len f - ring_len_prefix - 1 ≡ length f.bytes = omega arith in
    let next : u64 (rb.tail + frame_len f) ≡ rb.tail + frame_len f =
      omega (arith, v.filled, v.no_wrap) in
    rw (
      prefix_len f q v,
      busy,
      long,
      short,
      used,
      whole,
      at_type,
      at_body,
      plen,
      body_read f q v,
      next,
      (behind_prefix f q v).0,
      copy_out-handed_out f out,
    )

popped-Holds :
    {rb : RingBuffer} (f : Frame) (q : List Frame)
    → Holds rb (f ∷ q)
    → Holds (record rb { tail = rb.tail + frame_len f }) q
popped-Holds {rb} f q v = record {
  filled = omega (arith, v.filled);
  fits = omega (arith, v.fits);
  spelled =
      Spells-at rb.payload (rb.tail + 4 + 1 + length f.bytes) (rb.tail + frame_len f) (encode_all q)
        (omega arith)
        (Spells-suffix rb.payload (rb.tail + 4 + 1) f.bytes (encode_all q) (behind_prefix f q v).1);
  legal = v.legal.1;
  no_wrap = v.no_wrap;
}

pop_empty : (rb : RingBuffer) (out : Option ℕ) → rb.head ≡ rb.tail → ring_pop rb out ≡ (none, rb)
unfolding ring_pop
pop_empty rb out e = rw ((==_iff rb.head rb.tail).1 e)

-- On a ring that holds a queue: ring_pop hands out the oldest frame of the queue and removes it;
-- on the empty queue it returns 0 and leaves the ring as it was.
pub pop_refines :
    (rb : RingBuffer) (q : List Frame) (out : Option ℕ)
    → Holds rb q
    → let (r, rb') = ring_pop rb out in (r ≡ (dequeue q out).0) × Holds rb' (dequeue q out).1
pop_refines rb [] out v = rw (pop_empty rb out (omega (arith, v.filled))) (refl, v)
pop_refines rb (f ∷ q) out v = rw (pop_taken rb f q out v) (refl, popped-Holds f q v)

head-pop : (rb : RingBuffer) (out : Option ℕ) → (ring_pop rb out).1.head ≡ rb.head
unfolding ring_pop
head-pop rb out = ground arith

-- From a ring that holds a queue, no history of pushes and pops tells the ring from the bounded
-- queue of frames, as long as the head does not reach 2^64.
pub run_refines :
    (ops : List Op) (rb : RingBuffer) (q : List Frame)
    → Holds rb q
    → rb.head + pushed_bytes ops < 2 ^ 64
    → run_ring rb ops ≡ run_queue q ops
unfolding run_ring run_queue
run_refines [] rb q v h = refl
run_refines (push f ∷ ops) rb q v h =
    let (done, v') = push_refines rb q f v (omega arith) in
    ap₂ (λ r rest. pushed r ∷ rest) done
      (run_refines ops (ring_push rb f.type f.bytes).1 (enqueue q f).1 v'
        (omega (arith, head-push rb q f v (omega arith))))
run_refines (pop out ∷ ops) rb q v h =
    let (got_same, v') = pop_refines rb q out v in
    ap₂ (λ r rest. got r ∷ rest) got_same
      (run_refines ops (ring_pop rb out).1 (dequeue q out).1 v' (omega (arith, head-pop rb out)))
