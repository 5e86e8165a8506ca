-- ===== src/Value/Lattice/Dots.antt =====
-- The sums of `dot` in src/value_engine.cpp when the normal has one or two entries that are not 0.
use lina_cpx.Prelude.{ℕ, zero, suc, ◌<◌, ◌≡◌, ◌≢◌, refl, sym, ap, ◌∙◌, List, [], ◌∷◌, length, arith}
use lina_cpx.Prelude.Int.{
  ℤ, pos, negsuc, neg_ℤ, ◌+ℤ◌, ◌*ℤ◌, int_laws, *ℤ_parts, +ℤ_zero, +ℤ_right_comm, zero-*ℤ, *ℤ-zero,
}
use lina_cpx.Value.Facets.{set, zeros}
use lina_cpx.Value.Lattice.{dot, coord}

dot_add : (ns ps : List ℤ) (s a : ℤ) → dot (s +ℤ a) ns ps ≡ dot s ns ps +ℤ a
unfolding dot
dot_add [] ps s a = refl
dot_add (n ∷ ns) [] s a = refl
dot_add (n ∷ ns) (p ∷ ps) s a =
    ap (λ t. dot t ns ps) (+ℤ_right_comm s a (n *ℤ p)) ∙ dot_add ns ps (s +ℤ n *ℤ p) a

add_none : (v s : ℤ) → s ≡ s +ℤ v *ℤ pos 0
add_none v s = sym (ap (λ t. s +ℤ t) (*ℤ-zero v) ∙ +ℤ_zero s)

dot-set :
    (i : ℕ) (v s : ℤ) (ns ps : List ℤ)
    → i < length ns
    → coord ns i ≡ pos 0
    → dot s (set i v ns) ps ≡ dot s ns ps +ℤ v *ℤ coord ps i
unfolding dot set
dot-set i v s [] ps h e = absurd (omega arith)
dot-set zero v s (n ∷ ns) [] h e = add_none v s
dot-set zero v s (n ∷ ns) (p ∷ ps) h e =
    dot_add ns ps s (v *ℤ p)
    ∙ ap (λ t. dot t ns ps +ℤ v *ℤ p)
        (sym (+ℤ_zero s) ∙ ap (λ t. s +ℤ t) (sym (zero-*ℤ p) ∙ ap (λ t. t *ℤ p) (sym e)))
dot-set (suc i) v s (n ∷ ns) [] h e = add_none v s
dot-set (suc i) v s (n ∷ ns) (p ∷ ps) h e = dot-set i v (s +ℤ n *ℤ p) ns ps (omega arith) e

dot-zeros : (n : ℕ) (s : ℤ) (ps : List ℤ) → dot s (zeros n) ps ≡ s
unfolding dot zeros
dot-zeros zero s ps = refl
dot-zeros (suc n) s [] = refl
dot-zeros (suc n) s (p ∷ ps) =
    dot-zeros n (s +ℤ pos 0 *ℤ p) ps ∙ ap (λ t. s +ℤ t) (zero-*ℤ p) ∙ +ℤ_zero s

pub plus_once : (a : ℤ) → pos 0 +ℤ pos 1 *ℤ a ≡ a
plus_once a = omega (int_laws, *ℤ_parts (pos 1) a)

pub minus_once : (a : ℤ) → pos 0 +ℤ negsuc 0 *ℤ a ≡ neg_ℤ a
minus_once a = omega (int_laws, *ℤ_parts (negsuc 0) a)

pub minus_plus : (a b : ℤ) → pos 0 +ℤ negsuc 0 *ℤ a +ℤ pos 1 *ℤ b ≡ neg_ℤ (a +ℤ neg_ℤ b)
minus_plus a b = omega (int_laws, *ℤ_parts (negsuc 0) a, *ℤ_parts (pos 1) b)

pub plus_plus : (a b : ℤ) → pos 0 +ℤ pos 1 *ℤ a +ℤ pos 1 *ℤ b ≡ a +ℤ b
plus_plus a b = omega (int_laws, *ℤ_parts (pos 1) a, *ℤ_parts (pos 1) b)

coord-zeros : (n i : ℕ) → coord (zeros n) i ≡ pos 0
unfolding zeros
coord-zeros zero i = refl
coord-zeros (suc n) zero = refl
coord-zeros (suc n) (suc i) = coord-zeros n i

length-zeros : (n : ℕ) → length (zeros n) ≡ n
unfolding zeros
length-zeros zero = refl
length-zeros (suc n) = omega (arith, length-zeros n)

length-set : (i : ℕ) (v : ℤ) (ns : List ℤ) → length (set i v ns) ≡ length ns
unfolding set
length-set i v [] = refl
length-set zero v (n ∷ ns) = refl
length-set (suc i) v (n ∷ ns) = omega (arith, length-set i v ns)

coord-set : (i j : ℕ) (v : ℤ) (ns : List ℤ) → i ≢ j → coord (set i v ns) j ≡ coord ns j
unfolding set
coord-set i j v [] h = refl
coord-set zero zero v (n ∷ ns) h = absurd (h refl)
coord-set zero (suc j) v (n ∷ ns) h = refl
coord-set (suc i) zero v (n ∷ ns) h = refl
coord-set (suc i) (suc j) v (n ∷ ns) h = coord-set i j v ns (λ e. h (ap suc e))

pub dot_unit :
    (i : ℕ) (v : ℤ) (ps : List ℤ)
    → i < 14
    → dot (pos 0) (set i v (zeros 14)) ps ≡ pos 0 +ℤ v *ℤ coord ps i
dot_unit i v ps h =
    dot-set i v (pos 0) (zeros 14) ps (omega (arith, length-zeros 14)) (coord-zeros 14 i)
    ∙ ap (λ t. t +ℤ v *ℤ coord ps i) (dot-zeros 14 (pos 0) ps)

pub dot_pair :
    (i j : ℕ) (v w : ℤ) (ps : List ℤ)
    → i < 14
    → j < 14
    → i ≢ j
    → dot (pos 0) (set j w (set i v (zeros 14))) ps ≡ pos 0 +ℤ v *ℤ coord ps i +ℤ w *ℤ coord ps j
dot_pair i j v w ps h k ne =
    dot-set j w (pos 0) (set i v (zeros 14)) ps
      (omega (arith, length-set i v (zeros 14), length-zeros 14))
      (coord-set i j v (zeros 14) ne ∙ coord-zeros 14 j)
    ∙ ap (λ t. t +ℤ w *ℤ coord ps j) (dot_unit i v ps h)
