-- ===== src/Dragon/Ring.antt =====
-- include/dragon_ring.h: a single-producer single-consumer ring of framed messages.
-- The payload area is a function from an index to the byte there. `uint32_t` and `uint64_t`
-- arithmetic wraps; bytes are the numbers below 256. The length prefix is written by copying the
-- four bytes of a `uint32_t`, which a little-endian host keeps lowest byte first.
pub mod Memory
pub mod Queue
pub mod Frames
pub mod Push
pub mod Pop
use lina_cpx.Prelude.{
  ℕ, zero, suc, ◌+◌, ◌-◌, ◌*◌, ◌/◌, ◌%◌, ◌^◌, Bool, true, false, ◌&&◌, ◌||◌, [], ◌∷◌, Option, none,
  some, Bytes, length, ltb, leb, ◌==◌, if◌then◌else◌,
}

abbrev pub ring_data_offset : ℕ
ring_data_offset = 128

-- 256 MiB less the two cache lines of `head` and `tail`
abbrev pub ring_payload_size : ℕ
ring_payload_size = 256 * 1024 * 1024 - ring_data_offset

abbrev pub ring_len_prefix : ℕ
ring_len_prefix = 4

abbrev pub ring_frame_max : ℕ
ring_frame_max = 64 * 1024 * 1024

abbrev pub u32 : ℕ → ℕ
u32 n = n % 2 ^ 32

abbrev pub u64 : ℕ → ℕ
u64 n = n % 2 ^ 64

-- `a - b` on `uint64_t`
abbrev pub sub64 : ℕ → ℕ → ℕ
sub64 a b = (a + 2 ^ 64 - b) % 2 ^ 64

pub record RingBuffer : Type 0 where
  pub head : ℕ
  pub tail : ℕ
  pub payload : ℕ → ℕ

-- one store into the payload area
abbrev pub poke : (ℕ → ℕ) → ℕ → ℕ → ℕ → ℕ
poke mem i v j = if j == i then v else mem j

-- the loop of `ring_write_bytes` from round `i` on: the list is `s[i..n)`
pub write_loop : (ℕ → ℕ) → ℕ → ℕ → Bytes → ℕ → ℕ
write_loop mem off i [] = mem
write_loop mem off i (b ∷ bs) =
    write_loop (poke mem ((off + i) % ring_payload_size) b) off (i + 1) bs

pub ring_write_bytes : (ℕ → ℕ) → ℕ → Bytes → ℕ → ℕ
ring_write_bytes mem pos src = write_loop mem (pos % ring_payload_size) 0 src

-- the loop of `ring_read_bytes` from round `i` on, with the rounds left
pub read_loop : (ℕ → ℕ) → ℕ → ℕ → ℕ → Bytes
read_loop mem off i zero = []
read_loop mem off i (suc n) = mem ((off + i) % ring_payload_size) ∷ read_loop mem off (i + 1) n

pub ring_read_bytes : (ℕ → ℕ) → ℕ → ℕ → Bytes
ring_read_bytes mem pos n = read_loop mem (pos % ring_payload_size) 0 n

-- The four bytes take disjoint bits, so their `|` is a sum.
pub ring_read_u32 : (ℕ → ℕ) → ℕ → ℕ
ring_read_u32 mem pos =
    let off = pos % ring_payload_size in
    let b = λ (i : ℕ). mem ((off + i) % ring_payload_size) in
    b 0 + b 1 * 2 ^ 8 + b 2 * 2 ^ 16 + b 3 * 2 ^ 24

-- the bytes of a `uint32_t` in memory
pub u32_bytes : ℕ → Bytes
u32_bytes n = n % 256 ∷ n / 2 ^ 8 % 256 ∷ n / 2 ^ 16 % 256 ∷ n / 2 ^ 24 % 256 ∷ []

-- what `ring_push` writes for a message: the prefix, the type and the bytes
pub write_frame : (ℕ → ℕ) → ℕ → ℕ → ℕ → Bytes → ℕ → ℕ
write_frame mem head total type bytes =
    let prefixed = ring_write_bytes mem head (u32_bytes total) in
    let typed = ring_write_bytes prefixed (u64 (head + ring_len_prefix)) (type ∷ []) in
    if ltb 0 (length bytes)
    then ring_write_bytes typed (u64 (u64 (head + ring_len_prefix) + 1)) bytes
    else typed

-- The caller's pointer and length are the list `bytes`.
pub ring_push : RingBuffer → ℕ → Bytes → Bool × RingBuffer
ring_push rb type bytes =
    let total = u32 (ring_len_prefix + 1 + length bytes) in
    let used = sub64 rb.head rb.tail in
    if ltb ring_frame_max (length bytes)
    then (false, rb)
    else if ltb ring_payload_size (u64 (used + total))
    then (false, rb)
    else (
      true,
      record rb {
        head = u64 (rb.head + total);
        payload = write_frame rb.payload rb.head total type bytes;
      },
    )

-- what `ring_pop` hands out: its return value, and what it stores through its three pointers.
-- `copied` is `none` when it leaves the payload buffer alone.
pub record Popped : Type 0 where
  pub total : ℕ
  pub type : ℕ
  pub copied : Option Bytes
  pub payload_len : ℕ

-- `if (payload_out && plen > 0 && plen <= payload_cap)`
pub copy_out : Option ℕ → ℕ → Bytes → Option Bytes
copy_out none plen body = none
copy_out (some cap) plen body = if ltb 0 plen && leb plen cap then some body else none

-- The buffer for the payload is `none` for a null pointer, and else its capacity. The result is
-- `none` where the code returns 0.
pub ring_pop : RingBuffer → Option ℕ → Option Popped × RingBuffer
ring_pop rb payload_out =
    let total = ring_read_u32 rb.payload rb.tail in
    let plen = total - ring_len_prefix - 1 in
    let body = ring_read_bytes rb.payload (u64 (u64 (rb.tail + ring_len_prefix) + 1)) plen in
    if rb.head == rb.tail
    then (none, rb)
    else if ltb total (ring_len_prefix + 1) || ltb (ring_frame_max + ring_len_prefix + 1) total
    then (none, rb)
    else if ltb (sub64 rb.head rb.tail) total
    then (none, rb)
    else (
      some (record {
        total = total;
        type = rb.payload (u64 (rb.tail + ring_len_prefix) % ring_payload_size);
        copied = copy_out payload_out plen body;
        payload_len = plen;
      }),
      record rb { tail = u64 (rb.tail + total) },
    )
