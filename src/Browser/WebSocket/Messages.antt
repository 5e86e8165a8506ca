-- ===== src/Browser/WebSocket/Messages.antt =====
-- Whole messages of src/browser_driver.cpp: fragments put together, with the pings between them answered.
use lina_cpx.Prelude.{
  ℕ, zero, suc, ◌<◌, ◌^◌, ◌≡◌, refl, sym, ap, ap₂, ◌∙◌, ◌⊎◌, inl, inr, Bool, true, false, ◌||◌,
  List, [], ◌∷◌, ◌++◌, append_assoc, append-nil, some, Bytes, All, length, ◌==◌, if◌then◌else◌,
  arith,
}
use lina_cpx.Browser.WebSocket.{
  Socket, Frame, again, done, pong_frame, send_pong, read_frame, on_frame, on_data, receive_loop,
  receive, text_frame, send_text,
}
use lina_cpx.Browser.WebSocket.Progress.{read_frame_left}
use lina_cpx.Browser.WebSocket.Frames.{text_message, read_frame-text_frame}

-- the frames that stand at the head of the bytes, and what is left behind them
pub data Reads : Bytes → List Frame → Bytes → Type 0 where
  nothing : {bs : Bytes} → Reads bs [] bs
  next :
      {bs bs' rest : Bytes} {f : Frame} {fs : List Frame}
      → read_frame bs ≡ some (f, bs')
      → Reads bs' fs rest
      → Reads bs (f ∷ fs) rest

-- a ping, or a part of a message that is not its last
abbrev pub Continues : Frame → Type 0
Continues f = (f.opcode ≡ 9) ⊎ ((f.opcode < 3) × (f.fin ≡ false))

abbrev pub is_ping : Frame → Bool
is_ping f = f.opcode == 9

-- the parts put together, and the answers to the pings
unfoldable pub assembled : List Frame → Bytes
assembled [] = []
assembled (f ∷ fs) = let rest = assembled fs in if is_ping f then rest else f.body ++ rest

unfoldable pub pongs : List Frame → List Bytes
pongs [] = []
pongs (f ∷ fs) = let rest = pongs fs in if is_ping f then pong_frame f.body ∷ rest else rest

on_ping :
    (f : Frame) (p : Bytes) (s : Socket)
    → f.opcode ≡ 9
    → on_frame f p s ≡ again p (send_pong f.body s)
unfolding on_frame
on_ping f p s e = rw (e) refl

data_opcode :
    (n : ℕ)
    → n < 3
    → ((n == 9) ≡ false) × ((n == 8) ≡ false) × ((n == 1 || n == 2 || n == 0) ≡ true)
data_opcode n h = ground arith

on_part :
    (f : Frame) (p : Bytes) (s : Socket)
    → f.opcode < 3
    → on_frame f p s ≡ on_data f.fin (p ++ f.body) s
unfolding on_frame
on_part f p s h = let (a, b, c) = data_opcode f.opcode h in rw (a, b, c) refl

-- the socket once the bytes are `rest` and the frames `out` have been sent
abbrev pub after : Socket → Bytes → List Bytes → Socket
after s rest out = record s { incoming = rest; sent = s.sent ++ out }

-- a round of the loop, by what its frame leads to
round_on :
    (fuel : ℕ) (p p' bs : Bytes) (s s' : Socket) (f : Frame)
    → read_frame s.incoming ≡ some (f, bs)
    → on_frame f p (record s { incoming = bs }) ≡ again p' s'
    → receive_loop (suc fuel) p s ≡ receive_loop fuel p' s'
unfolding receive_loop
round_on fuel p p' bs s s' f read on = rw (read, on, receive_loop) refl

round_done :
    (fuel : ℕ) (p p' bs : Bytes) (b : Bool) (s s' : Socket) (f : Frame)
    → read_frame s.incoming ≡ some (f, bs)
    → on_frame f p (record s { incoming = bs }) ≡ done b p' s'
    → receive_loop (suc fuel) p s ≡ (b, p', s')
unfolding receive_loop
round_done fuel p p' bs b s s' f read on = rw (read, on, receive_loop) refl

assembled-ping :
    (f : Frame) (fs : List Frame)
    → f.opcode ≡ 9
    → (assembled (f ∷ fs) ≡ assembled fs) × (pongs (f ∷ fs) ≡ pong_frame f.body ∷ pongs fs)
unfolding assembled pongs
assembled-ping f fs e = (rw (e) refl, rw (e) refl)

assembled-part :
    (f : Frame) (fs : List Frame)
    → f.opcode < 3
    → (assembled (f ∷ fs) ≡ f.body ++ assembled fs) × (pongs (f ∷ fs) ≡ pongs fs)
unfolding assembled pongs
assembled-part f fs h = let e = (data_opcode f.opcode h).0 in (rw (e) refl, rw (e) refl)

run :
    (fs : List Frame) (last : Frame) (fuel : ℕ) (p rest : Bytes) (s : Socket)
    → length s.incoming < fuel
    → Reads s.incoming (fs ++ last ∷ []) rest
    → All Continues fs
    → last.opcode < 3
    → last.fin ≡ true
    → receive_loop fuel p s ≡ (true, p ++ (assembled fs ++ last.body), after s rest (pongs fs))
unfolding send_pong assembled pongs
run fs last zero p rest s h r c k e = absurd (omega arith)
run [] last (suc fuel) p rest s h (next read nothing) c k e =
    round_done fuel p (p ++ last.body) rest true s (record s { incoming = rest }) last read
      (on_part last p (record s { incoming = rest }) k
        ∙ ap (λ b. on_data b (p ++ last.body) (record s { incoming = rest })) e)
    ∙ ap (λ out. (true, p ++ last.body, record s { incoming = rest; sent = out }))
        (sym (append-nil s.sent))
run (f ∷ fs) last (suc fuel) p rest s h (next {bs' = bs'} read r) (inl ping, cs) k e =
    let s1 : Socket = send_pong f.body (record s { incoming = bs' }) in
    let shorter = read_frame_left s.incoming (f, bs') read in
    round_on fuel p p bs' s s1 f read (on_ping f p (record s { incoming = bs' }) ping)
    ∙ run fs last fuel p rest s1 (omega arith) r cs k e
    ∙ ap₂ (λ t out. (true, p ++ (t ++ last.body), record s { incoming = rest; sent = out }))
        (sym (assembled-ping f fs ping).0)
        (append_assoc s.sent (pong_frame f.body ∷ []) (pongs fs)
          ∙ ap (λ o. s.sent ++ o) (sym (assembled-ping f fs ping).1))
run (f ∷ fs) last (suc fuel) p rest s h (next {bs' = bs'} read r) (inr (part, more), cs) k e =
    let s1 : Socket = record s { incoming = bs' } in
    let shorter = read_frame_left s.incoming (f, bs') read in
    round_on fuel p (p ++ f.body) bs' s s1 f read
      (on_part f p s1 part ∙ ap (λ b. on_data b (p ++ f.body) s1) more)
    ∙ run fs last fuel (p ++ f.body) rest s1 (omega arith) r cs k e
    ∙ ap₂ (λ t out. (true, t, record s { incoming = rest; sent = s.sent ++ out }))
        (append_assoc p f.body (assembled fs ++ last.body)
          ∙ ap (λ t. p ++ t)
              (sym (append_assoc f.body (assembled fs) last.body)
                ∙ ap (λ t. t ++ last.body) (sym (assembled-part f fs part).0)))
        (sym (assembled-part f fs part).1)

-- A message in parts, with pings between them: the parts come put together, each ping is answered in its turn, and
-- what follows the last part is left for the next call.
pub receive_assembles :
    (fs : List Frame) (last : Frame) (rest payload : Bytes) (s : Socket)
    → s.connected ≡ true
    → Reads s.incoming (fs ++ last ∷ []) rest
    → All Continues fs
    → last.opcode < 3
    → last.fin ≡ true
    → receive payload s ≡ (true, assembled fs ++ last.body, after s rest (pongs fs))
unfolding receive
receive_assembles fs last rest payload s up r c k e =
    ap (λ b. if b then receive_loop (suc (length s.incoming)) [] s else (false, payload, s)) up
    ∙ run fs last (suc (length s.incoming)) [] rest s (omega arith) r c k e

-- A text of less than 2^64 bytes that one end sends is handed over as one frame, whatever the mask, and the other end
-- receives the text from that frame and leaves what follows.
pub receive-send_text :
    (mask text rest payload : Bytes) (whole : Bool) (s t : Socket)
    → length mask ≡ 4
    → length text < 2 ^ 64
    → s.connected ≡ true
    → t.connected ≡ true
    → (frame : Bytes) × (send_text mask whole text s
        ≡ (whole, record s { sent = s.sent ++ frame ∷ [] }))
      × (receive payload (record t { incoming = frame ++ rest })
          ≡ (true, text, record t { incoming = rest }))
unfolding send_text assembled pongs
receive-send_text mask text rest payload whole s t hm ht up_s up_t =
    let frame = text_frame mask text in
    let t' : Socket = record t { incoming = frame ++ rest } in
    (
      frame,
      ap (λ b. if b then (whole, record s { sent = s.sent ++ frame ∷ [] }) else (false, s)) up_s,
      receive_assembles [] (text_message text) rest payload t' up_t
            (next (read_frame-text_frame mask text rest hm ht) nothing) tt (omega arith) refl
          ∙ ap (λ out. (true, text, record t { incoming = rest; sent = out })) (append-nil t.sent),
    )
