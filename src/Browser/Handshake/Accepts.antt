-- ===== src/Browser/Handshake/Accepts.antt =====
-- When `connect` of src/browser_driver.cpp takes a server's answer.
use lina_cpx.Prelude.{
  ℕ, ◌+◌, ◌≤◌, ◌<◌, ◌≡◌, refl, sym, ap, ◌∙◌, true, false, List, [], ◌∷◌, ◌++◌, none, some, Bytes,
  codes, length, append-nil, append_assoc, length-append, Option-cases, inl, inr, arith,
}
use lina_cpx.Text.{is_prefix}
use lina_cpx.Text.Search.{cut, find-cut, cut-append, is_prefix_self}
use lina_cpx.Browser.Base64.{base64_encode}
use lina_cpx.Browser.Sha1.Digest.{sha1_of, update_all, joined, digest-update_all}
use lina_cpx.Browser.WebSocket.{Socket}
use lina_cpx.Browser.Handshake.{
  has, Address, address_of, Attempt, reaches, end_of_headers, request_of, complete, max_headers,
  read_headers, guid, accept_header, expected_of, checked, answered, connect,
}

-- what RFC 6455 asks the server to send for a key
abbrev pub accept_of : Bytes → Bytes
accept_of key = base64_encode (sha1_of (key ++ guid))

expected_of-accept_of : (key : Bytes) → expected_of key ≡ accept_of key
unfolding expected_of update_all joined
expected_of-accept_of key =
    ap base64_encode
      (digest-update_all (key ∷ guid ∷ []) ∙ ap (λ g. sha1_of (key ++ g)) (append-nil guid))

-- the pattern stands in the text
abbrev pub Holds : Bytes → Bytes → Type 0
Holds pat text = (pre : Bytes) × (post : Bytes) × (text ≡ pre ++ (pat ++ post))

cut_found : (pat pre post : Bytes) → cut pat (pre ++ (pat ++ post)) ≡ none → ⊥
unfolding cut
cut_found [] [] [] e = unfold is_prefix in cc
cut_found [] [] (c ∷ cs) e = unfold is_prefix in cc
cut_found (p ∷ ps) [] post e = ground (arith, is_prefix_self (p ∷ ps) post)
cut_found pat (c ∷ cs) post e = ground (arith, cut_found pat cs post)

has_hit : (pat text pre post : Bytes) → cut pat text ≡ some (pre, post) → has pat text ≡ true
unfolding has
has_hit pat text pre post e = rw (find-cut text pat 0 (omega arith), e, has) refl

has_missed : (pat text : Bytes) → cut pat text ≡ none → has pat text ≡ false
unfolding has
has_missed pat text e = rw (find-cut text pat 0 (omega arith), e, has) refl

Holds-has : (pat text : Bytes) → Holds pat text → has pat text ≡ true
Holds-has pat text (pre, post, e) = elim (Option-cases (cut pat text)) [
  | inl miss ↦ absurd (cut_found pat pre post (ap (cut pat) (sym e) ∙ miss))
  | inr ((pre', post'), hit) ↦ has_hit pat text pre' post' hit
]

not_ends : (post more : Bytes) (c : ℕ) → post ++ c ∷ more ≡ [] → ⊥
not_ends [] more c e = cc
not_ends (x ∷ xs) more c e = cc

-- a beginning that is not all of the answer does not end the headers
has-short :
    (text more head : Bytes) (c : ℕ)
    → cut end_of_headers (text ++ c ∷ more) ≡ some (head, [])
    → has end_of_headers text ≡ false
has-short text more head c e = elim (Option-cases (cut end_of_headers text)) [
  | inl miss ↦ has_missed end_of_headers text miss
  | inr ((pre, post), hit) ↦
      let longer = cut-append end_of_headers text (c ∷ more) pre post hit in
      absurd (not_ends post more c (cc))
]

read_done :
    (headers rest : Bytes)
    → has end_of_headers headers ≡ true
    → read_headers headers rest ≡ complete headers rest
unfolding read_headers
read_done headers [] e = ground arith
read_done headers (c ∷ cs) e = ground arith

read_more :
    (headers cs : Bytes) (c : ℕ)
    → has end_of_headers headers ≡ false
    → length headers < max_headers
    → read_headers headers (c ∷ cs) ≡ read_headers (headers ++ c ∷ []) cs
unfolding read_headers
read_more headers cs c e lt = ground (arith, length-append headers (c ∷ []))

-- the headers are read to their end and no further
read_headers-complete :
    (text more rest head : Bytes)
    → cut end_of_headers (text ++ more) ≡ some (head, [])
    → length text + length more ≤ max_headers
    → read_headers text (more ++ rest) ≡ complete (text ++ more) rest
read_headers-complete text [] rest head e le =
    read_done text rest (
      ap (has end_of_headers) (sym (append-nil text))
      ∙ has_hit end_of_headers (text ++ []) head [] e)
    ∙ ap (λ t. complete t rest) (sym (append-nil text))
read_headers-complete text (c ∷ more) rest head e le =
    let here = append_assoc text (c ∷ []) more in
    read_more text (more ++ rest) c (has-short text more head c e) (omega arith)
    ∙ read_headers-complete (text ++ c ∷ []) more rest head (ap (cut end_of_headers) here ∙ e)
        (omega (arith, length-append text (c ∷ [])))
    ∙ ap (λ t. complete t rest) here

-- what has been read and what is left are the stream
record Cut (stream headers rest : Bytes) : Type 0 where
  whole : stream ≡ headers ++ rest
  ended : has end_of_headers headers ≡ true
  small : length headers ≤ max_headers

checked_ok :
    (key headers : Bytes)
    → has (codes "101 ") headers ≡ true
    → has (accept_header ++ expected_of key) headers ≡ true
    → checked key headers ≡ none
unfolding checked
checked_ok key headers a b = ground arith

-- what the answer to a key was, where the connection stands
pub record Answered (key incoming : Bytes) (s : Socket) : Type 0 where
  pub headers : Bytes
  pub whole : incoming ≡ headers ++ s.incoming
  pub ended : Holds end_of_headers headers
  pub accepts : Holds (accept_header ++ accept_of key) headers

answered_ok :
    (key answer rest head : Bytes) (s : Socket)
    → s.incoming ≡ answer ++ rest
    → cut end_of_headers answer ≡ some (head, [])
    → length answer ≤ max_headers
    → Holds (codes "101 ") answer
    → Holds (accept_header ++ accept_of key) answer
    → answered key s ≡ (none, record s { incoming = rest })
unfolding answered
answered_ok key answer rest head s arrives ends le upgrade accepts =
    let read : read_headers [] s.incoming ≡ complete answer rest =
      ap (read_headers []) arrives ∙ read_headers-complete [] answer rest head ends (omega arith) in
    let fine = checked_ok key answer (Holds-has (codes "101 ") answer upgrade) (
      ap (λ k. has (accept_header ++ k) answer) (expected_of-accept_of key)
      ∙ Holds-has (accept_header ++ accept_of key) answer accepts) in
    ground arith

-- A server that is reached at the address of the URL, gets the whole request and answers with at most 16384
-- bytes of headers, which have their empty line at the end only, the status 101 and the key that RFC 6455 asks
-- for, is taken: `connect` returns true, has sent the request, and leaves what follows the headers for the frames.
pub connect_accepts :
    (url : Bytes) (to : Address) (attempts : List Attempt) (key_bytes answer rest head : Bytes)
    (s : Socket)
    → address_of url ≡ some to
    → reaches attempts ≡ true
    → cut end_of_headers answer ≡ some (head, [])
    → length answer ≤ max_headers
    → Holds (codes "101 ") answer
    → Holds (accept_header ++ accept_of (base64_encode key_bytes)) answer
    → connect url (some attempts) key_bytes true (answer ++ rest) s ≡ (
      none,
      record {
        connected = true;
        incoming = rest;
        sent = s.sent ++ request_of to (base64_encode key_bytes) ∷ [];
      },
    )
unfolding connect
connect_accepts url to attempts key_bytes answer rest head s found reached ends le upgrade accepts =
    let key = base64_encode key_bytes in
    let opened : Socket = record {
      connected = true;
      incoming = answer ++ rest;
      sent = s.sent ++ request_of to key ∷ [];
    } in
    let taken = answered_ok key answer rest head opened refl ends le upgrade accepts in
    rw (found, reached, connect) taken
