-- ===== src/Value/Lattice/Wider.antt =====
-- The lattices of src/value_engine.cpp season by season: each takes in the one before.
use native.Mathlib.Nat.{mul-le-mul_left, le_of_mul-le-mul_left}
use lina_cpx.Prelude.{
  ℕ, ◌+◌, ◌*◌, ◌<◌, ◌≤◌, ◌≡◌, ◌∙◌, sym, ◌↔◌, subst, true, List, [], ◌∷◌, All, arith,
}
use lina_cpx.Prelude.Int.{ℤ, pos, pos_part, neg_part, ◌*ℤ◌, ◌≤ℤ◌, *ℤ_parts}
use lina_cpx.Value.Seasons.{Mpq}
use lina_cpx.Value.Facets.{Halfspace}
use lina_cpx.Value.Lattice.{Point, dot, contains}
use lina_cpx.Value.Lattice.Inside.{AtMost, Within, contains-Within}

-- `≤` of products by natural numbers, in the parts of the integers
scaled_iff :
    (p q : ℤ) (a d : ℕ)
    → (p *ℤ pos a ≤ℤ q *ℤ pos d)
      ↔ (pos_part p * a + neg_part q * d ≤ pos_part q * d + neg_part p * a)
scaled_iff p q a d =
    let l = *ℤ_parts p (pos a) in
    let r = *ℤ_parts q (pos d) in (λ h. omega (arith, l, r, h), λ h. omega (arith, l, r, h))

cross_multiply :
    (p n a q q' d b r r' : ℕ)
    → 0 < a
    → p * a + q' * d ≤ q * d + n * a
    → q * b + r' * a ≤ r * a + q' * b
    → p * b + r' * d ≤ r * d + n * b
cross_multiply p n a q q' d b r r' h at le =
    let scaled : a * (p * b + r' * d) ≤ a * (r * d + n * b) =
      omega (arith, mul-le-mul_left b at, mul-le-mul_left d le) in
    le_of_mul-le-mul_left scaled h

-- A bound that is weakened.
AtMost-mono :
    (d : ℕ) (p : ℤ) (q r : Mpq)
    → 0 < q.den
    → q.num *ℤ pos r.den ≤ℤ r.num *ℤ pos q.den
    → AtMost d p q
    → AtMost d p r
AtMost-mono d p q r h le at = (scaled_iff p r.num r.den d).1 (
    cross_multiply (pos_part p) (neg_part p) q.den (pos_part q.num) (neg_part q.num) d r.den
      (pos_part r.num) (neg_part r.num) h ((scaled_iff p q.num q.den d).0 at)
      ((scaled_iff q.num r.num r.den q.den).0 le))

-- the same halfspaces, each with a bound that is no stricter
abbrev pub Looser : List Halfspace → List Halfspace → Type 0
Looser [] gs = gs ≡ []
Looser (f ∷ fs) [] = ⊥
Looser (f ∷ fs) (g ∷ gs) =
    (f.normal ≡ g.normal)
    × (0 < f.threshold.den)
    × (f.threshold.num *ℤ pos g.threshold.den ≤ℤ g.threshold.num *ℤ pos f.threshold.den)
    × Looser fs gs

Looser-Within :
    (fs gs : List Halfspace) (x : Point) → Looser fs gs → All (Within x) fs → All (Within x) gs
Looser-Within [] gs x e h = subst (All (Within x)) (sym e) tt
Looser-Within (f ∷ fs) [] x e h = elim e [ ]
Looser-Within (f ∷ fs) (g ∷ gs) x (same, h, le, rest) (here, there) = (
  AtMost-mono x.denominator (dot (pos 0) g.normal x.numerators) f.threshold g.threshold h le
      (subst (λ n. AtMost x.denominator (dot (pos 0) n x.numerators) f.threshold) same here),
  Looser-Within fs gs x rest there,
)

pub contains-Looser :
    (fs gs : List Halfspace) (x : Point)
    → Looser fs gs
    → (contains fs x).0 ≡ true
    → (contains gs x).0 ≡ true
contains-Looser fs gs x l h =
    (contains-Within gs x).1 (Looser-Within fs gs x l ((contains-Within fs x).0 h))

pub Looser-trans : (fs gs hs : List Halfspace) → Looser fs gs → Looser gs hs → Looser fs hs
Looser-trans [] gs hs e k = subst (λ l. Looser l hs) e k
Looser-trans (f ∷ fs) [] hs e k = elim e [ ]
Looser-trans (f ∷ fs) (g ∷ gs) [] e k = elim k [ ]
Looser-trans (f ∷ fs) (g ∷ gs) (h ∷ hs) (n, d, le, rest) (n', d', le', rest') = (
  n ∙ n',
  d,
  AtMost-mono f.threshold.den f.threshold.num g.threshold h.threshold d' le' le,
  Looser-trans fs gs hs rest rest',
)
