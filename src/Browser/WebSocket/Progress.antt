-- ===== src/Browser/WebSocket/Progress.antt =====
-- That reading a frame in src/browser_driver.cpp takes bytes, so that the rounds of `receive` end.
use lina_cpx.Prelude.{
  ℕ, ◌+◌, ◌≤◌, ◌<◌, ◌%◌, ◌≡◌, refl, ap, Bool, true, false, Option, none, some, Bytes, length, take,
  drop, length-drop, leb, leb→le, ◌==◌, if◌then◌else◌, arith,
}
use lina_cpx.Browser.WebSocket.{
  Frame, mask_byte, recv_exact, recv_length, recv_mask, read_frame, ◌>>=◌, high_bit, read_length,
}

-- what a chain of reads leaves is no longer than what it was given
recv_exact_left :
    (n : ℕ) (bs : Bytes) (r : Bytes × Bytes) → recv_exact n bs ≡ some r → length r.1 + n ≤ length bs
unfolding recv_exact
recv_exact_left n bs r e = by_fit (leb n (length bs)) refl e
  where
    by_fit :
        (b : Bool)
        → leb n (length bs) ≡ b
        → (if b then some (take n bs, drop n bs) else none) ≡ some r
        → length r.1 + n ≤ length bs
    by_fit true h e =
        let left : drop n bs ≡ r.1 = cc in
        omega (arith, leb→le n (length bs) h, length-drop n bs, ap length left)
    by_fit false h e = cc

bind_some {ℓ κ} :
    {A : Type ℓ} {B : Type κ} (m : Option A) (f : A → Option B) {b : B}
    → (m >>= f) ≡ some b
    → (a : A) × (m ≡ some a) × (f a ≡ some b)
bind_some (some a) f h = (a, refl, h)
bind_some none f h = cc

recv_length_left :
    (len : ℕ) (bs : Bytes) (r : ℕ × Bytes) → recv_length len bs ≡ some r → length r.1 ≤ length bs
unfolding recv_length
recv_length_left len bs r e = by_size (len == 126) (len == 127) e
  where
    extended_left :
        (n : ℕ)
        → (recv_exact n bs >>= λ (ext, rest). some (read_length 0 ext, rest)) ≡ some r
        → length r.1 ≤ length bs
    extended_left n e =
        let (a, read, same) = bind_some (recv_exact n bs) _ e in
        let left : a.1 ≡ r.1 = cc in omega (arith, recv_exact_left n bs a read, ap length left)

    by_size :
        (a b : Bool)
        → (if a
            then (recv_exact 2 bs >>= λ (ext, rest). some (read_length 0 ext, rest))
            else if b
            then (recv_exact 8 bs >>= λ (ext, rest). some (read_length 0 ext, rest))
            else some (len, bs))
          ≡ some r
        → length r.1 ≤ length bs
    by_size true b e = extended_left 2 e
    by_size false true e = extended_left 8 e
    by_size false false e = let left : bs ≡ r.1 = cc in omega (arith, ap length left)

recv_mask_left :
    (b : Bool) (bs : Bytes) (r : Bytes × Bytes) → recv_mask b bs ≡ some r → length r.1 ≤ length bs
unfolding recv_mask
recv_mask_left true bs r e = omega (arith, recv_exact_left 4 bs r e)
recv_mask_left false bs r e = let left : bs ≡ r.1 = cc in omega (arith, ap length left)

pub read_frame_left :
    (bs : Bytes) (r : Frame × Bytes) → read_frame bs ≡ some r → length r.1 < length bs
unfolding read_frame
read_frame_left bs r e =
    let (h, eh, e1) = bind_some (recv_exact 2 bs) _ e in
    let (l, el, e2) = bind_some (recv_length (mask_byte h.0 1 % 128) h.1) _ e1 in
    let (m, em, e3) = bind_some (recv_mask (high_bit (mask_byte h.0 1)) l.1) _ e2 in
    let (d, ed, e4) = bind_some (recv_exact l.0 m.1) _ e3 in
    let left : d.1 ≡ r.1 = cc in
    omega (
      arith,
      recv_exact_left 2 bs h eh,
      recv_length_left (mask_byte h.0 1 % 128) h.1 l el,
      recv_mask_left (high_bit (mask_byte h.0 1)) l.1 m em,
      recv_exact_left l.0 m.1 d ed,
      ap length left,
    )
