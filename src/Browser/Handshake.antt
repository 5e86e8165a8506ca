-- ===== src/Browser/Handshake.antt =====
-- `connect` of src/browser_driver.cpp: the address, the connection, the request for the upgrade, the headers
-- of the answer and the check of the server's key. What the name service and the system answer, the random
-- bytes, and whether `::send` takes the whole request are arguments.
pub mod Accepts
mod Tests
use lina_cpx.Prelude.{
  ℕ, suc, ◌+◌, Bool, true, false, not, ◌&&◌, List, [], ◌∷◌, ◌++◌, Option, none, some, Bytes, codes,
  length, drop, ltb, ◌==◌, if◌then◌else◌,
}
use lina_cpx.Text.{is_prefix, find, substr}
use lina_cpx.Browser.Base64.{base64_encode}
use lina_cpx.Browser.Sha1.{initial, update, digest}
use lina_cpx.Browser.WebSocket.{Socket}

-- `text.find(pat) != npos`
unfoldable pub has : Bytes → Bytes → Bool
has pat text = elim (find text pat 0) [ none ↦ false | some i ↦ true ]

-- `text.rfind(c)`, from index `i` on
unfoldable pub rfind_from : ℕ → Bytes → ℕ → Option ℕ
rfind_from c [] i = none
rfind_from c (x ∷ xs) i = elim (rfind_from c xs (suc i)) [
  | some j ↦ some j
  | none ↦ if x == c then some i else none
]

pub record Address : Type 0 where
  pub host : Bytes
  pub port : Bytes
  pub host_port : Bytes
  pub path : Bytes

unfoldable pub split_path : Bytes → Bytes × Bytes
split_path rest = elim (find rest (codes "/") 0) [
  | none ↦ (rest, codes "/")
  | some slash ↦ (substr rest 0 slash, drop slash rest)
]

unfoldable pub split_port : Bytes → Bytes × Bytes
split_port host_port = elim (rfind_from b':' host_port 0) [
  | none ↦ (host_port, codes "80")
  | some colon ↦ (substr host_port 0 colon, drop (suc colon) host_port)
]

unfoldable pub address_of : Bytes → Option Address
unfolding split_path split_port
address_of url =
    let (host_port, path) = split_path (drop 5 url) in
    let (host, port) = split_port host_port in
    if is_prefix (codes "ws://") url
    then some (record { host = host; port = port; host_port = host_port; path = path })
    else none

-- what becomes of one address of the list of `getaddrinfo`
pub data Attempt : Type 0 where
  no_socket : Attempt
  refused : Attempt
  accepted : Attempt

-- the first address that accepts ends the loop
unfoldable pub reaches : List Attempt → Bool
reaches [] = false
reaches (no_socket ∷ rest) = reaches rest
reaches (refused ∷ rest) = reaches rest
reaches (accepted ∷ rest) = true

abbrev pub end_of_line : Bytes
end_of_line = 13 ∷ 10 ∷ []

abbrev pub end_of_headers : Bytes
end_of_headers = 13 ∷ 10 ∷ 13 ∷ 10 ∷ []

unfoldable pub request_of : Address → Bytes → Bytes
request_of to key =
    codes "GET "
    ++ (to.path
        ++ (codes " HTTP/1.1"
            ++ (end_of_line
                ++ (codes "Host: "
                    ++ (to.host_port
                        ++ (end_of_line
                            ++ (codes "Upgrade: websocket"
                                ++ (end_of_line
                                    ++ (codes "Connection: Upgrade"
                                        ++ (end_of_line
                                            ++ (codes "Sec-WebSocket-Key: "
                                                ++ (key
                                                    ++ (end_of_line
                                                        ++ (codes "Sec-WebSocket-Version: 13"
                                                            ++ (end_of_line
                                                            ++ end_of_line)))))))))))))))

pub data Headers : Type 0 where
  -- the headers, and what follows them on the socket
  complete : Bytes → Bytes → Headers
  read_failed : Headers
  too_large : Headers

abbrev pub max_headers : ℕ
max_headers = 16384

-- The headers so far, and what the socket brings; one byte a round.
unfoldable pub read_headers : Bytes → Bytes → Headers
read_headers headers [] = if has end_of_headers headers then complete headers [] else read_failed
read_headers headers (c ∷ cs) = elim (has end_of_headers headers) [
  | true ↦ complete headers (c ∷ cs)
  | false ↦ elim (ltb max_headers (length (headers ++ c ∷ []))) [
    | true ↦ too_large
    | false ↦ read_headers (headers ++ c ∷ []) cs
  ]
]

abbrev pub guid : Bytes
guid = codes "258EAFA5-E914-47DA-95CA-C5AB0DC85B11"

abbrev pub accept_header : Bytes
accept_header = codes "Sec-WebSocket-Accept: "

unfoldable pub expected_of : Bytes → Bytes
expected_of key = base64_encode (digest (update guid (update key initial)))

unfoldable pub server_key : Bytes → Bytes
server_key headers = elim (find headers accept_header 0) [
  | none ↦ codes "<none>"
  | some i ↦ substr headers (i + length accept_header) 32
]

-- the checks on the headers; the error, if any
unfoldable pub checked : Bytes → Bytes → Option Bytes
unfolding server_key
checked key headers =
    if not (has (codes " 101 ") headers) && not (has (codes "101 ") headers)
    then some (codes "upgrade refused: " ++ substr headers 0 120)
    else if not (has (accept_header ++ expected_of key) headers)
    then some (
        codes "accept key mismatch; key="
        ++ (key
            ++ (codes " expected="
                ++ (expected_of key ++ (codes " server=" ++ server_key headers)))))
    else none

-- after the request
unfoldable pub answered : Bytes → Socket → Option Bytes × Socket
unfolding checked
answered key s = elim (read_headers [] s.incoming) [
  | read_failed ↦ (some (codes "handshake read failed"), record s { incoming = [] })
  | too_large ↦ (
    some (codes "handshake too large"),
    record s { incoming = drop (suc max_headers) s.incoming },
  )
  | complete headers rest ↦ (checked key headers, record s { incoming = rest })
]

-- The error, none where the connection stands, and the socket. `addresses` is what `getaddrinfo` returns, with
-- what becomes of each; `incoming` is what the server will send.
unfoldable pub connect :
    Bytes → Option (List Attempt) → Bytes → Bool → Bytes → Socket → Option Bytes × Socket
connect url addresses key_bytes whole incoming s = elim (address_of url) [
  | none ↦ (some (codes "unsupported ws url"), s)
  | some to ↦ elim addresses [
    | none ↦ (some (codes "dns failed for " ++ to.host), s)
    | some attempts ↦
        let key = base64_encode key_bytes in
        let request = request_of to key in
        let opened = record s {
          connected = true;
          incoming = incoming;
          sent = s.sent ++ request ∷ [];
        } in
        if not (reaches attempts)
        then (some (codes "connect failed to " ++ to.host_port), s)
        else if not whole
        then (some (codes "handshake write failed"), opened)
        else answered key opened
  ]
]
