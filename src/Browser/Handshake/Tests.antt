-- ===== src/Browser/Handshake/Tests.antt =====
-- The handshake of src/browser_driver.cpp on the example of RFC 6455, and the digest on that of RFC 3174.
use lina_cpx.Prelude.{
  ◌≡◌, refl, true, [], ◌∷◌, ◌++◌, none, some, codes, Bytes, drop, ap, sym, arith,
}
use lina_cpx.Text.{is_prefix, find}
use lina_cpx.Text.Search.{cut}
use lina_cpx.Browser.Base64.{base64_encode}
use lina_cpx.Browser.Sha1.{initial, update, update_loop, pad_loop, process_block, digest}
use lina_cpx.Browser.Sha1.Digest.{blocks, zeros, sha1_of, update_all, joined, digest-update_all}
use lina_cpx.Browser.WebSocket.{Socket, big_endian}
use lina_cpx.Browser.Handshake.{
  Address, address_of, rfind_from, refused, accepted, reaches, end_of_headers, accept_header,
  request_of, connect,
}
use lina_cpx.Browser.Handshake.Accepts.{Holds, accept_of, connect_accepts}

abbrev sha1_abc : Bytes
sha1_abc =
    0xa9 ∷ 0x99 ∷ 0x3e ∷ 0x36 ∷ 0x47 ∷ 0x06 ∷ 0x81 ∷ 0x6a ∷ 0xba ∷ 0x3e ∷ 0x25 ∷ 0x71 ∷ 0x78 ∷ 0x50
    ∷ 0xc2 ∷ 0x6c ∷ 0x9c ∷ 0xd0 ∷ 0xd8 ∷ 0x9d ∷ []

digest_abc : digest (update (codes "abc") initial) ≡ sha1_abc
unfolding digest update big_endian update_loop pad_loop process_block
digest_abc = refl

digest-update_all_example :
    digest (update_all (codes "ab" ∷ codes "c" ∷ []) initial)
    ≡ sha1_of (joined (codes "ab" ∷ codes "c" ∷ []))
digest-update_all_example = digest-update_all (codes "ab" ∷ codes "c" ∷ [])

-- "the sample nonce", whose key is dGhlIHNhbXBsZSBub25jZQ==
abbrev nonce : Bytes
nonce = codes "the sample nonce"

nonce_key : base64_encode nonce ≡ codes "dGhlIHNhbXBsZSBub25jZQ=="
unfolding base64_encode
nonce_key = refl

abbrev url : Bytes
url = codes "ws://127.0.0.1:9222/devtools"

abbrev place : Address
place = record {
  host = codes "127.0.0.1";
  port = codes "9222";
  host_port = codes "127.0.0.1:9222";
  path = codes "/devtools";
}

place_of_url : address_of url ≡ some place
unfolding address_of is_prefix rfind_from find
place_of_url = refl

place_of_bare :
    address_of (codes "ws://h")
    ≡ some (record { host = codes "h"; port = codes "80"; host_port = codes "h"; path = codes "/" })
unfolding address_of is_prefix rfind_from find
place_of_bare = refl

abbrev closed : Socket
closed = record { connected = true; incoming = []; sent = [] }

abbrev upgrade : Bytes
upgrade = codes "HTTP/1.1 101 Switching" ++ (13 ∷ 10 ∷ [])

abbrev rfc_key : Bytes
rfc_key = codes "s3pPLMBiTxaQ9kYGzzhZRbK+xOo="

key_of_nonce : accept_of (base64_encode nonce) ≡ rfc_key
unfolding base64_encode big_endian process_block blocks zeros
key_of_nonce = refl

abbrev answer : Bytes
answer = upgrade ++ (accept_header ++ (rfc_key ++ end_of_headers))

abbrev head : Bytes
head = upgrade ++ (accept_header ++ rfc_key)

answer_ends : cut end_of_headers answer ≡ some (head, [])
unfolding cut is_prefix
answer_ends = refl

upgrade_stands : Holds (codes "101 ") answer
upgrade_stands = (codes "HTTP/1.1 ", drop 13 answer, refl)

key_stands : Holds (accept_header ++ accept_of (base64_encode nonce)) answer
key_stands = (
  upgrade,
  end_of_headers,
  ap (λ k. upgrade ++ (accept_header ++ (k ++ end_of_headers))) (sym key_of_nonce),
)

connect_accepts_example :
    connect url (some (refused ∷ accepted ∷ [])) nonce true (answer ++ codes "frames") closed ≡ (
      none,
      record {
        connected = true;
        incoming = codes "frames";
        sent = request_of place (base64_encode nonce) ∷ [];
      },
    )
connect_accepts_example =
    connect_accepts url place (refused ∷ accepted ∷ []) nonce answer (codes "frames") head closed
      place_of_url (unfold reaches in refl) answer_ends (omega arith) upgrade_stands key_stands
