-- ===== src/Value/Tests.antt =====
-- The value engine on small lives. A rate is a percentage; a double of the feedback is an integer of thousandths.
use lina_cpx.Prelude.{
  ℕ, zero, suc, ◌+◌, ◌*◌, ◌/◌, ◌≡◌, ◌↔◌, refl, true, false, List, [], ◌∷◌, map, none, some, All,
  Bytes, codes, bytes_eq, ltb, arith,
}
use lina_cpx.Prelude.Int.{ℤ, pos, negsuc, neg_ℤ, ◌+ℤ◌, ◌*ℤ◌, ltb_ℤ, not_ltb_ℤ_iff}
use lina_cpx.Value.Seasons.{
  Mpq, get_seasonal_bounds, PolytopeConstraints, from_season, lower_bounds, upper_bounds,
}
use lina_cpx.Value.Facets.{coupling_facets, build_lattice}
use lina_cpx.Value.Lattice.{Point, contains}
use lina_cpx.Value.Lattice.Inside.{InBox, Leads, Restrains, contains_iff}
use lina_cpx.Value.Advance.{Rates, can_advance, next_season}
use lina_cpx.Value.Growth.{
  Being, new_engine, season_metrics, check_season_progress, cross, apply_season_advance, grow,
}
use lina_cpx.Value.Feedback.{
  Floats, Feedback, PendingCorrection, EncoderCorrection, flag_miscalibration, confirm_correction,
}
use lina_cpx.Value.Feedback.Biases.{OrderedFloats}
use lina_cpx.Value.Feedback.Authority.{
  Life, Reaches, start, then_step, flag, confirm, ByUser, spring_corrections,
}

abbrev spring : PolytopeConstraints
spring = from_season (codes "spring")

-- where both virtue and shadow are high: every bound holds and a coupling does not
abbrev torn : Point
torn = record {
  numerators = map pos (60 ∷ 45 ∷ 70 ∷ 15 ∷ 80 ∷ 10 ∷ 70 ∷ 15 ∷ 75 ∷ 20 ∷ 75 ∷ 15 ∷ 65 ∷ 25 ∷ []);
  denominator = 100;
}

torn_outside : (contains (build_lattice spring) torn).0 ≡ false
unfolding contains build_lattice from_season ◌+ℤ◌ ◌*ℤ◌ get_seasonal_bounds bytes_eq
torn_outside = refl

contains_iff_example : ((contains (build_lattice spring) torn).0 ≡ true) ↔ (
    InBox 0 (lower_bounds spring) (upper_bounds spring) torn
    × All (λ f. Leads torn f × Restrains torn f) coupling_facets)
contains_iff_example = contains_iff spring torn

abbrev percent : Rates ℕ
percent = record { below = ltb; hundredths = λ n. n }

-- a life of five sessions and fifty evaluations, all aligned
abbrev many : ℕ → List Bytes
many zero = []
many (suc n) = codes "aligned" ∷ many n

abbrev grown : Being ℕ
grown = record {
  identity = record {
    current_season = codes "spring";
    session_count = 5;
    total_evaluations = 0;
    alignment_rate = 0;
  };
  zones = many 50;
  active = (codes "a walk", none) ∷ [];
  qualifying_memories = 7;
  engine = new_engine spring (codes "spring");
  landmarks = [];
  telemetry = [];
}

abbrev share : ℕ → ℕ → ℕ
share a n = a * 100 / n

it_turns_summer : (grow percent share grown).identity.current_season ≡ codes "summer"
unfolding grow check_season_progress apply_season_advance season_metrics can_advance next_season
    cross bytes_eq
it_turns_summer = refl

abbrev thousandths : Mpq → ℤ
thousandths q = q.num *ℤ pos (1000 / q.den)

abbrev over_1000 : ℤ → ℤ
over_1000 (pos n) = pos (n / 1000)
over_1000 (negsuc n) = neg_ℤ (pos ((n + 1) / 1000))

abbrev integers : Floats ℤ
integers = record {
  below = ltb_ℤ;
  add = λ a b. a +ℤ b;
  sub = λ a b. a +ℤ neg_ℤ b;
  mul = λ a b. over_1000 (a *ℤ b);
  literal = thousandths;
}

integers-ordered : OrderedFloats integers
unfolding ◌*ℤ◌
integers-ordered = record {
  irreflexive = λ x. (not_ltb_ℤ_iff x x).1 (omega arith);
  unit_ordered = refl;
  weights_ordered = refl;
}

abbrev system : Feedback ℤ
system = record {
  season = codes "spring";
  corrections = [];
  dimension_biases = pos 0 ∷ pos 0 ∷ [];
  known_pattern_corrections = [];
}

-- of a vector of two dimensions, the second is to be higher
abbrev request : PendingCorrection ℤ
request =
    flag_miscalibration integers (codes "e-1") (codes "Always be careful here")
      (pos 500 ∷ pos 100 ∷ []) ((1, pos 900) ∷ []) (codes "lina") (codes "too low") system

not_by_herself : confirm_correction integers 9 request (codes "lina") system ≡ none
unfolding confirm_correction flag_miscalibration bytes_eq
not_by_herself = refl

abbrev made : EncoderCorrection ℤ
made = record {
  pending = request;
  confirmed_by = codes "user";
  season_at_time = codes "spring";
  created_at = 9;
}

abbrev corrected_system : Feedback ℤ
corrected_system = record {
  season = codes "spring";
  corrections = made ∷ [];
  dimension_biases = pos 0 ∷ pos 40 ∷ [];
  known_pattern_corrections = (codes "always careful here", pos 0 ∷ pos 800 ∷ []) ∷ [];
}

by_the_user :
    confirm_correction integers 9 request (codes "user") system ≡ some (made, corrected_system)
unfolding confirm_correction flag_miscalibration bytes_eq ◌+ℤ◌ ◌*ℤ◌
by_the_user = refl

abbrev levels : Rates ℤ
levels = record { below = ltb_ℤ; hundredths = λ n. pos (n * 10) }

abbrev before : Life integers levels
before = record { feedback = system; flagged = [] }

abbrev asked : Life integers levels
asked = record { feedback = system; flagged = request ∷ [] }

abbrev answered : Life integers levels
answered = record { feedback = corrected_system; flagged = request ∷ [] }

lived : Reaches integers levels before answered
lived =
    then_step
      (then_step start (
        flag (codes "e-1") (codes "Always be careful here") (pos 500 ∷ pos 100 ∷ [])
          ((1, pos 900) ∷ []) (codes "lina") (codes "too low")))
      (confirm 9 [] [] request (codes "user") made corrected_system refl by_the_user)

spring_corrections_example : All (ByUser integers levels) (made ∷ [])
spring_corrections_example = spring_corrections integers levels before answered refl refl lived
