-- ===== src/Browser/Tests.antt =====
-- The codecs of src/browser_driver.cpp on a few bytes.
use lina_cpx.Prelude.{◌≡◌, refl, true, false, inl, inr, [], ◌∷◌, ◌++◌, codes, Bytes, arith}
use lina_cpx.Browser.Base64.{base64_encode, base64_decode}
use lina_cpx.Browser.Base64.RoundTrip.{base64_decode-base64_encode}
use lina_cpx.Browser.WebSocket.{Socket, Frame, send_text, receive, read_frame}
use lina_cpx.Browser.WebSocket.Messages.{
  Reads, nothing, next, assembled, pongs, receive_assembles, receive-send_text,
}

encode_picture : base64_encode (codes "Man, M") ≡ codes "TWFuLCBN"
unfolding base64_encode
encode_picture = refl

encode_padded : base64_encode (codes "Ma") ≡ codes "TWE="
unfolding base64_encode
encode_padded = refl

base64_decode-base64_encode_example :
    base64_decode (base64_encode (0 ∷ 255 ∷ 16 ∷ 7 ∷ [])) ≡ 0 ∷ 255 ∷ 16 ∷ 7 ∷ []
base64_decode-base64_encode_example =
    base64_decode-base64_encode (0 ∷ 255 ∷ 16 ∷ 7 ∷ [])
      (omega arith, (omega arith, (omega arith, (omega arith, tt))))

abbrev idle : Socket
idle = record { connected = true; incoming = []; sent = [] }

receive-send_text_example :
    (frame : Bytes) × (send_text (1 ∷ 2 ∷ 3 ∷ 4 ∷ []) true (codes "{}") idle
      ≡ (true, record idle { sent = frame ∷ [] }))
    × (receive [] (record idle { incoming = frame ++ codes "next" })
        ≡ (true, codes "{}", record idle { incoming = codes "next" }))
receive-send_text_example =
    receive-send_text (1 ∷ 2 ∷ 3 ∷ 4 ∷ []) (codes "{}") (codes "next") [] true idle idle refl
      (omega arith) refl refl

-- "a", a ping with "!", and the last part, "b", none of them masked
abbrev part : Frame
part = record { fin = false; opcode = 1; body = codes "a" }

abbrev ping : Frame
ping = record { fin = true; opcode = 9; body = codes "!" }

abbrev last_part : Frame
last_part = record { fin = true; opcode = 0; body = codes "b" }

abbrev parts_bytes : Bytes
parts_bytes = 0x01 ∷ 1 ∷ b'a' ∷ 0x89 ∷ 1 ∷ b'!' ∷ 0x80 ∷ 1 ∷ b'b' ∷ 7 ∷ []

abbrev parts_socket : Socket
parts_socket = record { connected = true; incoming = parts_bytes; sent = [] }

parts_read : Reads parts_bytes (part ∷ ping ∷ last_part ∷ []) (7 ∷ [])
unfolding read_frame
parts_read = next refl (next refl (next refl nothing))

receive_assembles_example : receive [] parts_socket ≡ (
  true,
  assembled (part ∷ ping ∷ []) ++ codes "b",
  record parts_socket { incoming = 7 ∷ []; sent = pongs (part ∷ ping ∷ []) },
)
receive_assembles_example =
    receive_assembles (part ∷ ping ∷ []) last_part (7 ∷ []) [] parts_socket refl parts_read
      (inr (omega arith, refl), (inl refl, tt)) (omega arith) refl

parts_put_together : assembled (part ∷ ping ∷ []) ++ codes "b" ≡ codes "ab"
unfolding assembled
parts_put_together = refl
