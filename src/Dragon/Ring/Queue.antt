-- ===== src/Dragon/Ring/Queue.antt =====
-- What the ring of include/dragon_ring.h promises: a first-in first-out queue of frames, bounded
-- by the bytes that they take.
use lina_cpx.Prelude.{
  ℕ, ◌+◌, Bool, true, false, ◌&&◌, List, [], ◌∷◌, ◌++◌, Option, none, some, Bytes, length, leb, ltb,
  if◌then◌else◌,
}
use lina_cpx.Dragon.Ring.{
  ring_len_prefix, ring_frame_max, ring_payload_size, u32_bytes, Popped, RingBuffer, ring_push,
  ring_pop,
}

pub record Frame : Type 0 where
  pub type : ℕ
  pub bytes : Bytes

-- the length that a frame's prefix states
abbrev pub frame_len : Frame → ℕ
frame_len f = ring_len_prefix + 1 + length f.bytes

abbrev pub encode : Frame → Bytes
encode f = u32_bytes (frame_len f) ++ (f.type ∷ f.bytes)

abbrev pub encode_all : List Frame → Bytes
encode_all [] = []
encode_all (f ∷ q) = encode f ++ encode_all q

-- the bytes that a queue takes
abbrev pub size : List Frame → ℕ
size [] = 0
size (f ∷ q) = frame_len f + size q

abbrev pub has_room : List Frame → Frame → Bool
has_room q f = leb (length f.bytes) ring_frame_max && leb (size q + frame_len f) ring_payload_size

abbrev pub enqueue : List Frame → Frame → Bool × List Frame
enqueue q f = if has_room q f then (true, q ++ f ∷ []) else (false, q)

-- The payload is handed out if it is not empty and the caller's buffer is large enough.
abbrev pub handed_out : Frame → Option ℕ → Option Bytes
handed_out f none = none
handed_out f (some cap) =
    if ltb 0 (length f.bytes) && leb (length f.bytes) cap then some f.bytes else none

abbrev pub popped : Frame → Option ℕ → Popped
popped f payload_out = record {
  total = frame_len f;
  type = f.type;
  copied = handed_out f payload_out;
  payload_len = length f.bytes;
}

abbrev pub dequeue : List Frame → Option ℕ → Option Popped × List Frame
dequeue [] payload_out = (none, [])
dequeue (f ∷ q) payload_out = (some (popped f payload_out), q)

-- a call on the ring, and what its caller sees of it
pub data Op : Type 0 where
  push : Frame → Op
  pop : Option ℕ → Op

pub data Reply : Type 0 where
  pushed : Bool → Reply
  got : Option Popped → Reply

unfoldable pub run_queue : List Frame → List Op → List Reply
run_queue q [] = []
run_queue q (push f ∷ ops) = let (r, q') = enqueue q f in pushed r ∷ run_queue q' ops
run_queue q (pop out ∷ ops) = let (r, q') = dequeue q out in got r ∷ run_queue q' ops

unfoldable pub run_ring : RingBuffer → List Op → List Reply
run_ring rb [] = []
run_ring rb (push f ∷ ops) =
    let (r, rb') = ring_push rb f.type f.bytes in pushed r ∷ run_ring rb' ops
run_ring rb (pop out ∷ ops) = let (r, rb') = ring_pop rb out in got r ∷ run_ring rb' ops

-- the bytes that the pushes of a history take at most
abbrev pub pushed_bytes : List Op → ℕ
pushed_bytes [] = 0
pushed_bytes (push f ∷ ops) = frame_len f + pushed_bytes ops
pushed_bytes (pop out ∷ ops) = pushed_bytes ops
