-- ===== src/Browser/WebSocket.antt =====
-- `WebSocket` of src/browser_driver.cpp once it is connected: the frames that it sends, and the message that it
-- receives. Bytes are numbers below 256, whose bits are read by division.
pub mod Frames
mod Progress
pub mod Messages
use Prim.Native.Nat.{bit_xor}
use lina_cpx.Prelude.{
  ℕ, zero, suc, ◌+◌, ◌*◌, ◌/◌, ◌%◌, ◌^◌, Bool, true, false, ◌||◌, List, [], ◌∷◌, ◌++◌, Option, none,
  some, Bytes, length, take, drop, get_elem?, leb, ltb, ◌==◌, if◌then◌else◌,
}

-- the descriptor, what is still to arrive within the time allowed, and the frames handed to `send`
pub record Socket : Type 0 where
  pub connected : Bool
  pub incoming : Bytes
  pub sent : List Bytes

-- `close`
unfoldable pub close : Socket → Socket
close s = record s { connected = false }

-- byte `i` of the mask; of an array of four
unfoldable pub mask_byte : Bytes → ℕ → ℕ
mask_byte mask i = elim (get_elem? mask i) [ none ↦ 0 | some m ↦ m ]

-- `data[i] ^ mask[i % 4]`, from index `i` on
unfoldable pub masked : Bytes → ℕ → Bytes → Bytes
unfolding mask_byte
masked mask i [] = []
masked mask i (c ∷ cs) = bit_xor c (mask_byte mask (i % 4)) ∷ masked mask (suc i) cs

-- `(len >> (i * 8)) & 0xff`, for the `n` lowest bytes, the highest first
unfoldable pub big_endian : ℕ → ℕ → Bytes
big_endian zero len = []
big_endian (suc n) len = (len / 2 ^ (n * 8) % 256) ∷ big_endian n len

-- the second byte of the header with the extended length; `bit` is 128 for a masked frame
abbrev pub length_bytes : ℕ → Bytes
length_bytes len =
    if ltb len 126
    then (128 + len) ∷ []
    else if ltb len 65536
    then (128 + 126) ∷ (len / 2 ^ 8 % 256) ∷ (len % 256) ∷ []
    else (128 + 127) ∷ big_endian 8 len

unfoldable pub text_frame : Bytes → Bytes → Bytes
unfolding masked big_endian
text_frame mask text = 0x81 ∷ length_bytes (length text) ++ mask ++ masked mask 0 text

-- The mask is the four bytes of `std::random_device`, `whole` whether `::send` takes the whole frame.
unfoldable pub send_text : Bytes → Bool → Bytes → Socket → Bool × Socket
unfolding text_frame
send_text mask whole text s =
    if s.connected
    then (whole, record s { sent = s.sent ++ text_frame mask text ∷ [] })
    else (false, s)

abbrev pub pong_frame : Bytes → Bytes
pong_frame body =
    let len = length body in
    let size = if ltb len 126 then len ∷ [] else 126 ∷ (len / 2 ^ 8 % 256) ∷ (len % 256) ∷ [] in
    0x8a ∷ size ++ body

unfoldable pub send_pong : Bytes → Socket → Socket
send_pong body s = record s { sent = s.sent ++ pong_frame body ∷ [] }

-- `recv_exact` when it gets all; otherwise it has taken all that arrives
unfoldable pub recv_exact : ℕ → Bytes → Option (Bytes × Bytes)
recv_exact n bs = if leb n (length bs) then some (take n bs, drop n bs) else none

pub record Frame : Type 0 where
  pub fin : Bool
  pub opcode : ℕ
  pub body : Bytes

-- `len = (len << 8) | ext[i]`, in 64 bits
unfoldable pub read_length : ℕ → Bytes → ℕ
read_length len [] = len
read_length len (e ∷ es) = read_length (len * 2 ^ 8 % 2 ^ 64 + e) es

infixl 5 ◌>>=◌
abbrev pub ◌>>=◌ {ℓ κ} : {A : Type ℓ} {B : Type κ} → Option A → (A → Option B) → Option B
some a >>= f = f a
none >>= f = none

abbrev pub extended : Bytes × Bytes → Option (ℕ × Bytes)
extended (ext, rest) = some (read_length 0 ext, rest)

-- the length, by what the second byte of the header says of it
unfoldable pub recv_length : ℕ → Bytes → Option (ℕ × Bytes)
unfolding recv_exact read_length
recv_length len bs =
    if len == 126
    then recv_exact 2 bs >>= extended
    else if len == 127
    then recv_exact 8 bs >>= extended
    else some (len, bs)

-- the mask, zeros when there is none
unfoldable pub recv_mask : Bool → Bytes → Option (Bytes × Bytes)
unfolding recv_exact
recv_mask is_masked bs = if is_masked then recv_exact 4 bs else some (0 ∷ 0 ∷ 0 ∷ 0 ∷ [], bs)

abbrev pub unmasked : Bool → Bytes → Bytes → Bytes
unmasked is_masked mask body = if is_masked then masked mask 0 body else body

-- the first bit of a byte
abbrev pub high_bit : ℕ → Bool
high_bit h = h / 128 % 2 == 1

-- the frame that is read and what is left; `none` when the bytes end before
unfoldable pub read_frame : Bytes → Option (Frame × Bytes)
unfolding recv_length recv_mask recv_exact masked
read_frame bs = do
  (header, rest) ← recv_exact 2 bs
  let h0 = mask_byte header 0
  let h1 = mask_byte header 1
  (len, rest) ← recv_length (h1 % 128) rest
  (mask, rest) ← recv_mask (high_bit h1) rest
  (body, rest) ← recv_exact len rest
  some (
    record { fin = high_bit h0; opcode = h0 % 16; body = unmasked (high_bit h1) mask body },
    rest,
  )

-- what a frame leads to: another round, with the payload so far, or the end
pub data Round : Type 0 where
  again : Bytes → Socket → Round
  done : Bool → Bytes → Socket → Round

abbrev pub on_data : Bool → Bytes → Socket → Round
on_data true payload s = done true payload s
on_data false payload s = again payload s

unfoldable pub on_frame : Frame → Bytes → Socket → Round
unfolding send_pong close
on_frame f payload s =
    if f.opcode == 9
    then again payload (send_pong f.body s)
    else if f.opcode == 8
    then done false payload (close s)
    else if f.opcode == 1 || f.opcode == 2 || f.opcode == 0
    then on_data f.fin (payload ++ f.body) s
    else again payload s

-- The loop. A round takes two bytes at least, so that the number of bytes is fuel enough; where the bytes end, or
-- none are there, the answer is false.
unfoldable pub receive_loop : ℕ → Bytes → Socket → Bool × Bytes × Socket
receive_loop zero payload s = (false, payload, s)
receive_loop (suc fuel) payload s = elim (read_frame s.incoming) [
  | none ↦ (false, payload, record s { incoming = [] })
  | some r ↦ elim (on_frame r.0 payload (record s { incoming = r.1 })) [
    | again payload' s' ↦ receive_loop fuel payload' s'
    | done ok payload' s' ↦ (ok, payload', s')
  ]
]

-- `receive`, which returns the payload through its argument
unfoldable pub receive : Bytes → Socket → Bool × Bytes × Socket
receive payload s =
    if s.connected then receive_loop (suc (length s.incoming)) [] s else (false, payload, s)
