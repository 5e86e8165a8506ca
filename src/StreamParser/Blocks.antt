-- ===== src/StreamParser/Blocks.antt =====
-- The sweep of src/stream_parser.cpp in terms of blocks: text before, between and behind two tags.
use lina_cpx.Prelude.{
  ℕ, zero, suc, ◌+◌, ◌-◌, ◌≡◌, refl, sym, ap, ap₂, ◌∙◌, Bool, true, false, List, [], ◌∷◌, ◌++◌,
  append_assoc, Option, none, some, Option-cases, inl, inr, ◌⊎◌, Bytes, length, take, drop,
  length-append, take-append, drop-append, arith,
}
use lina_cpx.Text.{find, substr, erase}
use lina_cpx.Text.Search.{cut, place, find-cut, cut-split, cut-le, cut-append}
use lina_cpx.StreamParser.{thought_open, thought_close, sweep, contains_closing}

pub record Block : Type 0 where
  pub before : Bytes
  pub between : Bytes
  pub behind : Bytes

abbrev close_block : Bytes → Option (Bytes × Bytes) → Option Block
close_block before none = none
close_block before (some (between, behind)) =
    some (record { before = before; between = between; behind = behind })

abbrev open_block : Bytes → Option (Bytes × Bytes) → Option Block
open_block close_tag none = none
open_block close_tag (some (before, rest)) = close_block before (cut close_tag rest)

-- The first opening tag, with the first closing tag behind it.
abbrev pub block : Bytes → Bytes → Bytes → Option Block
block open_tag close_tag text = open_block close_tag (cut open_tag text)

-- The search by positions finds the block, and `substr` and `erase` take it apart.
pub record Located (open_tag close_tag text : Bytes) (b : Block) (o c : ℕ) : Type 0 where
  pub opens : find text open_tag 0 ≡ some o
  pub closes : find text close_tag (o + length open_tag) ≡ some c
  pub inner : substr text (o + length open_tag) (c - o - length open_tag) ≡ b.between
  pub outer : erase text o (c + length close_tag - o) ≡ b.before ++ b.behind

abbrev pub is_some {ℓ} : {A : Type ℓ} → Option A → Bool
is_some none = false
is_some (some a) = true

drop-length : (xs ys : Bytes) (n : ℕ) → n ≡ length xs → drop n (xs ++ ys) ≡ ys
drop-length xs ys n e = rw e (drop-append xs ys)

take-length : (xs ys : Bytes) (n : ℕ) → n ≡ length xs → take n (xs ++ ys) ≡ xs
take-length xs ys n e = rw e (take-append xs ys)

pub block-Located :
    (open_tag close_tag text before rest between behind : Bytes)
    → cut open_tag text ≡ some (before, rest)
    → cut close_tag rest ≡ some (between, behind)
    → Located open_tag close_tag text
        (record { before = before; between = between; behind = behind })
        (length before)
        (length before + length open_tag + length between)
block-Located open_tag close_tag text before rest between behind e e' = record {
  opens = rw (find-cut text open_tag 0 (omega arith), e) (ap some (omega arith));
  closes = rw (
    find-cut text close_tag (length before + length open_tag)
        (omega (arith, cut-le open_tag text before rest e)),
    behind_open,
    e',
  );
  inner = rw (behind_open, rest_split) (take-length between (close_tag ++ behind) _ (omega arith));
  outer = ap₂ ◌++◌ front back;
}
  where
    whole : text ≡ (before ++ open_tag) ++ rest
    whole = cut-split open_tag text before rest e ∙ sym (append_assoc before open_tag rest)

    rest_split : rest ≡ between ++ (close_tag ++ behind)
    rest_split = cut-split close_tag rest between behind e'

    behind_open : drop (length before + length open_tag) text ≡ rest
    behind_open =
        rw whole
          (drop-length (before ++ open_tag) rest _ (omega (arith, length-append before open_tag)))

    whole2 : text ≡ (((before ++ open_tag) ++ between) ++ close_tag) ++ behind
    whole2 = rw (whole, rest_split) (simp append_assoc)

    front : take (length before) text ≡ before
    front = rw (cut-split open_tag text before rest e) (take-append before (open_tag ++ rest))

    back :
        drop
          (length before
            + (length before + length open_tag + length between + length close_tag - length before))
          text
        ≡ behind
    back = rw whole2 (
        drop-length (((before ++ open_tag) ++ between) ++ close_tag) behind _ (
          omega (
            arith,
            length-append ((before ++ open_tag) ++ between) close_tag,
            length-append (before ++ open_tag) between,
            length-append before open_tag,
          )))

-- Where the first search fails, or the second, there is no block.
pub block_none :
    (open_tag close_tag text before rest : Bytes)
    → cut open_tag text ≡ some (before, rest)
    → cut close_tag rest ≡ none
    → (find text open_tag 0 ≡ some (length before))
      × (find text close_tag (length before + length open_tag) ≡ none)
block_none open_tag close_tag text before rest e e' =
    let whole = cut-split open_tag text before rest e ∙ sym (append_assoc before open_tag rest) in
    (
      rw (find-cut text open_tag 0 (omega arith), e) (ap some (omega arith)),
      rw
          (find-cut text close_tag (length before + length open_tag)
            (omega (arith, cut-le open_tag text before rest e)))
          (rw whole (
            rw (
              drop-length (before ++ open_tag) rest (length before + length open_tag)
                  (omega (arith, length-append before open_tag)),
              e',
            ))),
    )

-- `contains_closing` is the test for a block.
pub contains_closing-block :
    (text open_tag close_tag : Bytes)
    → contains_closing text open_tag close_tag ≡ is_some (block open_tag close_tag text)
unfolding contains_closing
contains_closing-block text open_tag close_tag = elim (Option-cases (cut open_tag text)) [
  | inl e ↦
      (let f = find-cut text open_tag 0 (omega arith) ∙ ap (place 0) e in
        rw (f, contains_closing, e))
  | inr ((before, rest), e) ↦ elim (Option-cases (cut close_tag rest)) [
    | inl e' ↦
        let (f, g) = block_none open_tag close_tag text before rest e e' in
        rw (f, contains_closing, g, e, e')
    | inr ((between, behind), e') ↦
        let l = block-Located open_tag close_tag text before rest between behind e e' in
        rw (l.opens, contains_closing, l.closes, e, e')
  ]
]

pub block-cuts :
    (open_tag close_tag text : Bytes) (b : Block)
    → block open_tag close_tag text ≡ some b
    → (rest : Bytes) × (cut open_tag text ≡ some (b.before, rest))
      × (cut close_tag rest ≡ some (b.between, b.behind))
block-cuts open_tag close_tag text b h = elim (Option-cases (cut open_tag text)) [
  | inl e ↦ absurd (ground arith)
  | inr ((before, rest), e) ↦ elim (Option-cases (cut close_tag rest)) [
    | inl e' ↦ absurd (ground arith)
    | inr ((between, behind), e') ↦ (rest, ground arith, ground arith)
  ]
]

pub block-none-cuts :
    (open_tag close_tag text : Bytes)
    → block open_tag close_tag text ≡ none
    → (cut open_tag text ≡ none)
      ⊎ ((before : Bytes) × (rest : Bytes) × (cut open_tag text ≡ some (before, rest))
          × (cut close_tag rest ≡ none))
block-none-cuts open_tag close_tag text h = elim (Option-cases (cut open_tag text)) [
  | inl e ↦ inl e
  | inr ((before, rest), e) ↦ elim (Option-cases (cut close_tag rest)) [
    | inl e' ↦ inr (before, rest, e, e')
    | inr ((between, behind), e') ↦ absurd (ground arith)
  ]
]

-- One round of the loop, on the block.
pub sweep-block :
    (fuel : ℕ) (text : Bytes) (out : List Bytes) (b : Block)
    → block thought_open thought_close text ≡ some b
    → sweep (suc fuel) text out ≡ sweep fuel (b.before ++ b.behind) (out ++ b.between ∷ [])
unfolding sweep
sweep-block fuel text out b h =
    let (rest, e, e') = block-cuts thought_open thought_close text b h in
    let l = block-Located thought_open thought_close text b.before rest b.between b.behind e e' in
    rw (l.opens, sweep, l.closes, l.inner, l.outer)

-- The loop stops where there is no block.
pub sweep_stop :
    (fuel : ℕ) (text : Bytes) (out : List Bytes)
    → block thought_open thought_close text ≡ none
    → sweep fuel text out ≡ (text, out)
unfolding sweep
sweep_stop zero text out h = refl
sweep_stop (suc fuel) text out h = elim (block-none-cuts thought_open thought_close text h) [
  | inl e ↦ (let f = find-cut text thought_open 0 (omega arith) ∙ ap (place 0) e in rw (f, sweep))
  | inr (before, rest, e, e') ↦
      let (f, g) = block_none thought_open thought_close text before rest e e' in rw (f, sweep, g)
]

pub block-length :
    (open_tag close_tag text : Bytes) (b : Block)
    → block open_tag close_tag text ≡ some b
    → length text
      ≡ length b.before + length open_tag + length b.between + length close_tag + length b.behind
block-length open_tag close_tag text b h =
    let (rest, e, e') = block-cuts open_tag close_tag text b h in
    omega (arith, cut-le open_tag text b.before rest e, cut-le close_tag rest b.between b.behind e')

pub block-append :
    (open_tag close_tag text more : Bytes) (b : Block)
    → block open_tag close_tag text ≡ some b
    → block open_tag close_tag (text ++ more) ≡ some (record b { behind = b.behind ++ more })
block-append open_tag close_tag text more b h =
    let (rest, e, e') = block-cuts open_tag close_tag text b h in
    rw (
      cut-append open_tag text more b.before rest e,
      cut-append close_tag rest more b.between b.behind e',
    )
