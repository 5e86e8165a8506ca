-- ===== src/Value/Seasons.antt =====
-- The bounds of each season, of src/value_engine.cpp and include/value_engine.hpp. A `mpq_class` is the
-- fraction that the code writes.
use lina_cpx.Prelude.{ℕ, Bool, true, false, List, [], ◌∷◌, Bytes, codes, bytes_eq, if◌then◌else◌}
use lina_cpx.Prelude.Int.{ℤ, pos}

pub record Mpq : Type 0 where
  pub num : ℤ
  pub den : ℕ

-- `mpq_class(n, d)`
abbrev pub mpq : ℕ → ℕ → Mpq
mpq n d = record { num = pos n; den = d }

pub record SeasonalBounds : Type 0 where
  pub harmony_min : Mpq
  pub dominance_max : Mpq
  pub order_min : Mpq
  pub chaos_max : Mpq
  pub integrity_min : Mpq
  pub deception_max : Mpq
  pub flourishing_min : Mpq
  pub decline_max : Mpq
  pub relationships_min : Mpq
  pub isolation_max : Mpq
  pub boundaries_min : Mpq
  pub intrusion_max : Mpq
  pub grace_min : Mpq
  pub rigidity_max : Mpq

abbrev pub spring_bounds : SeasonalBounds
spring_bounds = record {
  harmony_min = mpq 3 10;
  dominance_max = mpq 1 2;
  order_min = mpq 2 5;
  chaos_max = mpq 3 10;
  integrity_min = mpq 3 5;
  deception_max = mpq 1 5;
  flourishing_min = mpq 2 5;
  decline_max = mpq 3 10;
  relationships_min = mpq 1 2;
  isolation_max = mpq 2 5;
  boundaries_min = mpq 1 2;
  intrusion_max = mpq 3 10;
  grace_min = mpq 3 10;
  rigidity_max = mpq 1 2;
}

abbrev pub summer_bounds : SeasonalBounds
summer_bounds = record {
  harmony_min = mpq 7 25;
  dominance_max = mpq 13 25;
  order_min = mpq 19 50;
  chaos_max = mpq 8 25;
  integrity_min = mpq 3 5;
  deception_max = mpq 1 5;
  flourishing_min = mpq 19 50;
  decline_max = mpq 8 25;
  relationships_min = mpq 12 25;
  isolation_max = mpq 21 50;
  boundaries_min = mpq 12 25;
  intrusion_max = mpq 8 25;
  grace_min = mpq 7 25;
  rigidity_max = mpq 13 25;
}

abbrev pub fall_bounds : SeasonalBounds
fall_bounds = record {
  harmony_min = mpq 11 50;
  dominance_max = mpq 29 50;
  order_min = mpq 8 25;
  chaos_max = mpq 19 50;
  integrity_min = mpq 11 20;
  deception_max = mpq 1 4;
  flourishing_min = mpq 8 25;
  decline_max = mpq 19 50;
  relationships_min = mpq 21 50;
  isolation_max = mpq 12 25;
  boundaries_min = mpq 21 50;
  intrusion_max = mpq 19 50;
  grace_min = mpq 11 50;
  rigidity_max = mpq 29 50;
}

abbrev pub winter_bounds : SeasonalBounds
winter_bounds = record {
  harmony_min = mpq 9 50;
  dominance_max = mpq 31 50;
  order_min = mpq 7 25;
  chaos_max = mpq 21 50;
  integrity_min = mpq 1 2;
  deception_max = mpq 3 10;
  flourishing_min = mpq 7 25;
  decline_max = mpq 21 50;
  relationships_min = mpq 19 50;
  isolation_max = mpq 13 25;
  boundaries_min = mpq 19 50;
  intrusion_max = mpq 21 50;
  grace_min = mpq 9 50;
  rigidity_max = mpq 31 50;
}

unfoldable pub get_seasonal_bounds : Bytes → SeasonalBounds
get_seasonal_bounds season =
    if bytes_eq season (codes "spring")
    then spring_bounds
    else if bytes_eq season (codes "summer")
    then summer_bounds
    else if bytes_eq season (codes "fall")
    then fall_bounds
    else if bytes_eq season (codes "winter")
    then winter_bounds
    else spring_bounds

-- the fourteen bounds, which `from_bounds` copies one by one, are one field here
pub record PolytopeConstraints : Type 0 where
  pub bounds : SeasonalBounds
  pub season : Bytes

abbrev pub from_bounds : SeasonalBounds → Bytes → PolytopeConstraints
from_bounds b season = record { bounds = b; season = season }

unfoldable pub from_season : Bytes → PolytopeConstraints
from_season season = from_bounds (get_seasonal_bounds season) season

abbrev pub lower_bounds : PolytopeConstraints → List Mpq
lower_bounds c =
    let b = c.bounds in
    let zero = mpq 0 1 in
    b.harmony_min ∷ zero ∷ b.order_min ∷ zero ∷ b.integrity_min ∷ zero ∷ b.flourishing_min ∷ zero
    ∷ b.relationships_min ∷ zero ∷ b.boundaries_min ∷ zero ∷ b.grace_min ∷ zero ∷ []

abbrev pub upper_bounds : PolytopeConstraints → List Mpq
upper_bounds c =
    let b = c.bounds in
    let one = mpq 1 1 in
    one ∷ b.dominance_max ∷ one ∷ b.chaos_max ∷ one ∷ b.deception_max ∷ one ∷ b.decline_max ∷ one
    ∷ b.isolation_max ∷ one ∷ b.intrusion_max ∷ one ∷ b.rigidity_max ∷ []

-- A season is one of the four, or counts as spring.
pub get_seasonal_bounds_cases :
    (P : SeasonalBounds → Type 0)
    → P spring_bounds
    → P summer_bounds
    → P fall_bounds
    → P winter_bounds
    → (season : Bytes) → P (get_seasonal_bounds season)
unfolding get_seasonal_bounds
get_seasonal_bounds_cases P p q r t season = choose (bytes_eq season (codes "spring")) p (
    choose (bytes_eq season (codes "summer")) q
      (choose (bytes_eq season (codes "fall")) r (choose (bytes_eq season (codes "winter")) t p)))
  where
    choose : (b : Bool) {x y : SeasonalBounds} → P x → P y → P (if b then x else y)
    choose true px py = px
    choose false px py = py
