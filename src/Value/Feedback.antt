-- ===== src/Value/Feedback.antt =====
-- `EncoderFeedbackSystem` of src/value_engine.cpp: the corrections of the encoder, who may confirm them, and
-- the biases that they leave. Doubles are of a type `D` with the operations that the code uses.
pub mod Authority
pub mod Biases
use lina_cpx.Prelude.{
  ℕ, zero, suc, ◌+◌, Bool, true, false, not, ◌&&◌, ◌||◌, List, [], ◌∷◌, ◌++◌, map, Option, none,
  some, Bytes, codes, length, take, bytes_eq, leb, ltb, ◌==◌, if◌then◌else◌,
}
use lina_cpx.Prelude.Int.{negsuc}
use lina_cpx.Value.Seasons.{Mpq, mpq}

pub record Floats (D : Type 0) : Type 0 where
  pub below : D → D → Bool
  pub add : D → D → D
  pub sub : D → D → D
  pub mul : D → D → D
  -- a literal of the source
  pub literal : Mpq → D

-- `std::tolower` in the C locale
abbrev to_lower : ℕ → ℕ
to_lower c = if leb b'A' c && leb c b'Z' then c + 32 else c

-- `\w`
abbrev is_word : ℕ → Bool
is_word c =
    (leb b'a' c && leb c b'z')
    || (leb b'A' c && leb c b'Z')
    || (leb b'0' c && leb c b'9')
    || c == b'_'

-- a run of `\w` that is long enough, put before the others
abbrev finish_word : Bytes → List Bytes → List Bytes
finish_word w ws = if leb 4 (length w) then w ∷ ws else ws

-- the matches of `\b\w{4,}\b`, where `w` is the run so far
unfoldable pub words_from : Bytes → Bytes → List Bytes
words_from w [] = finish_word w []
words_from w (c ∷ cs) =
    let longer = words_from (w ++ c ∷ []) cs in
    let next = words_from [] cs in if is_word c then longer else finish_word w next

-- `a < b` of strings
unfoldable pub bytes_before : Bytes → Bytes → Bool
bytes_before [] [] = false
bytes_before [] (y ∷ ys) = true
bytes_before (x ∷ xs) [] = false
bytes_before (x ∷ xs) (y ∷ ys) =
    if ltb x y then true else if ltb y x then false else bytes_before xs ys

-- `std::set::insert`
unfoldable pub insert : Bytes → List Bytes → List Bytes
unfolding bytes_before
insert w [] = w ∷ []
insert w (v ∷ vs) =
    let rest = insert w vs in
    if bytes_before w v then w ∷ v ∷ vs else if bytes_before v w then v ∷ rest else v ∷ vs

unfoldable pub insert_all : List Bytes → List Bytes → List Bytes
unfolding insert
insert_all [] set = set
insert_all (w ∷ ws) set = insert_all ws (insert w set)

unfoldable pub joined : List Bytes → Bytes
joined [] = []
joined (w ∷ []) = w
joined (w ∷ v ∷ vs) = w ++ b' ' ∷ joined (v ∷ vs)

unfoldable pub response_pattern_key : Bytes → Bytes
unfolding words_from insert_all joined
response_pattern_key text = joined (take 8 (insert_all (words_from [] (map to_lower text)) []))

pub record PendingCorrection (D : Type 0) : Type 0 where
  pub evaluation_id : Bytes
  pub response_text : Bytes
  pub original_vector : List D
  pub corrected_vector : List D
  pub dimensions_adjusted : List ℕ
  pub flagged_by : Bytes
  pub reason : Bytes
  pub season : Bytes
  pub requires_confirmation_from : Bytes

-- the fields that are copied from the pending correction are one field here
pub record EncoderCorrection (D : Type 0) : Type 0 where
  pub pending : PendingCorrection D
  pub confirmed_by : Bytes
  pub season_at_time : Bytes
  pub created_at : ℕ

pub record Feedback (D : Type 0) : Type 0 where
  pub season : Bytes
  pub corrections : List (EncoderCorrection D)
  pub dimension_biases : List D
  -- the newest entry of a key first
  pub known_pattern_corrections : List (Bytes × List D)

unfoldable pub has_key {ℓ} : {A : Type ℓ} → Bytes → List (Bytes × A) → Bool
has_key k [] = false
has_key k ((k', v) ∷ rest) = bytes_eq k k' || has_key k rest

unfoldable pub is_known_pattern : {D : Type 0} → Bytes → Feedback D → Bool
unfolding response_pattern_key has_key
is_known_pattern text f = has_key (response_pattern_key text) f.known_pattern_corrections

unfoldable pub update_season : {D : Type 0} → Bytes → Feedback D → Feedback D
update_season season f = record f { season = season }

module _ {D : Type 0} (fs : Floats D) where
  -- `std::clamp`
  unfoldable pub clamp : D → D → D → D
  clamp v lo hi = if fs.below v lo then lo else if fs.below hi v then hi else v

  abbrev zero_d : D
  zero_d = fs.literal (mpq 0 1)

  abbrev one_d : D
  one_d = fs.literal (mpq 1 1)

  -- `MAX_WEIGHT_ADJUSTMENT` and its negative
  abbrev pub max_weight : D
  max_weight = fs.literal (mpq 3 10)

  abbrev pub min_weight : D
  min_weight = fs.literal (record { num = negsuc 2; den = 10 })

  -- `corrected_vector[i] = v`, for an index in range
  unfoldable pub set_at : ℕ → D → List D → List D
  set_at i v [] = []
  set_at zero v (x ∷ xs) = v ∷ xs
  set_at (suc i) v (x ∷ xs) = x ∷ set_at i v xs

  unfoldable pub corrected : List (ℕ × D) → List D → List D
  unfolding set_at clamp
  corrected [] v = v
  corrected ((i, value) ∷ rest) v = corrected rest (set_at i (clamp value zero_d one_d) v)

  -- the map of adjustments is the list of its entries in the order in which the code goes through them
  unfoldable pub flag_miscalibration :
      Bytes → Bytes → List D → List (ℕ × D) → Bytes → Bytes → Feedback D → PendingCorrection D
  unfolding corrected
  flag_miscalibration id text original adjustments flagged_by reason f = record {
    evaluation_id = id;
    response_text = text;
    original_vector = original;
    corrected_vector = corrected adjustments original;
    dimensions_adjusted = map (λ a. a.0) adjustments;
    flagged_by = flagged_by;
    reason = reason;
    season = f.season;
    requires_confirmation_from =
        if bytes_eq f.season (codes "spring") then codes "user" else codes "none";
  }

  unfoldable pub adjustment_delta : List D → List D → List D
  adjustment_delta [] os = []
  adjustment_delta (c ∷ cs) [] = []
  adjustment_delta (c ∷ cs) (o ∷ os) = fs.sub c o ∷ adjustment_delta cs os

  -- `0.05` is `BASE_LEARNING_RATE`
  unfoldable pub apply_correction : List D → List D → List D
  unfolding clamp
  apply_correction [] delta = []
  apply_correction (b ∷ bs) [] = b ∷ bs
  apply_correction (b ∷ bs) (d ∷ ds) =
      clamp (fs.add b (fs.mul d (fs.literal (mpq 1 20)))) min_weight max_weight
      ∷ apply_correction bs ds

  -- `none` for the exception; `now` is the answer of `std::time`
  unfoldable pub confirm_correction :
      ℕ → PendingCorrection D → Bytes → Feedback D → Option (EncoderCorrection D × Feedback D)
  unfolding adjustment_delta apply_correction response_pattern_key
  confirm_correction now p confirmed_by f =
      let correction : EncoderCorrection D = record {
        pending = p;
        confirmed_by = confirmed_by;
        season_at_time = f.season;
        created_at = now;
      } in
      let delta = adjustment_delta p.corrected_vector p.original_vector in
      if bytes_eq p.requires_confirmation_from (codes "user")
        && not (bytes_eq confirmed_by (codes "user"))
      then none
      else some (
        correction,
        record f {
          corrections = f.corrections ++ correction ∷ [];
          dimension_biases = apply_correction f.dimension_biases delta;
          known_pattern_corrections =
              (response_pattern_key p.response_text, delta) ∷ f.known_pattern_corrections;
        },
      )

  unfoldable pub apply_biases : List D → List D → List D
  unfolding clamp
  apply_biases [] bs = []
  apply_biases (x ∷ xs) [] = []
  apply_biases (x ∷ xs) (b ∷ bs) = clamp (fs.add x b) zero_d one_d ∷ apply_biases xs bs
