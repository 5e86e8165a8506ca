-- ===== src/Value/Feedback/Authority.antt =====
-- Who confirms what in spring: the corrections of src/value_engine.cpp over a life of flags, confirmations and
-- seasons.
use lina_cpx.Prelude.{
  ℕ, ◌≡◌, ◌≢◌, refl, sym, ap, subst, ◌∙◌, Bool, true, false, not, ◌&&◌, List, [], ◌∷◌, ◌++◌, Option,
  none, some, Bytes, codes, bytes_eq, bytes_eq_iff, All, All-append, guarded,
}
use lina_cpx.Value.Advance.{Rates, next_season}
use lina_cpx.Value.Advance.Widening.{season_cases}
use lina_cpx.Value.Feedback.{
  Floats, Feedback, PendingCorrection, EncoderCorrection, flag_miscalibration, confirm_correction,
  update_season,
}

module _ {D : Type 0} (fs : Floats D) (rates : Rates D) where
  -- the system with the corrections that were flagged
  pub record Life : Type 0 where
    pub feedback : Feedback D
    pub flagged : List (PendingCorrection D)

  -- one step: a flag, the confirmation of something flagged, or the season that follows
  pub data Step (l : Life) : Life → Type 0 where
    flag :
        (id text : Bytes) (original : List D) (adjustments : List (ℕ × D)) (by reason : Bytes)
        → Step l (record l {
          flagged =
              flag_miscalibration fs id text original adjustments by reason l.feedback ∷ l.flagged;
        })
    confirm :
        (now : ℕ) (before after : List (PendingCorrection D)) (p : PendingCorrection D)
        (who : Bytes) (c : EncoderCorrection D) (f : Feedback D)
        → l.flagged ≡ before ++ p ∷ after
        → confirm_correction fs now p who l.feedback ≡ some (c, f)
        → Step l (record l { feedback = f })
    turn :
        (next : Bytes)
        → next_season rates l.feedback.season ≡ some next
        → Step l (record l { feedback = update_season next l.feedback })

  pub data Reaches (l : Life) : Life → Type 0 where
    start : Reaches l l
    then_step : {m n : Life} → Reaches l m → Step m n → Reaches l n

  -- a correction confirmed in spring was confirmed by the user
  abbrev pub ByUser : EncoderCorrection D → Type 0
  ByUser c =
      (bytes_eq c.season_at_time (codes "spring") && not (bytes_eq c.confirmed_by (codes "user")))
      ≡ false

  ByUser_lem :
      (c : EncoderCorrection D)
      → (c.season_at_time ≡ codes "spring" → c.confirmed_by ≡ codes "user")
      → ByUser c
  ByUser_lem c h = by_season (bytes_eq c.season_at_time (codes "spring")) refl
    where
      by_season :
          (b : Bool)
          → bytes_eq c.season_at_time (codes "spring") ≡ b
          → (b && not (bytes_eq c.confirmed_by (codes "user"))) ≡ false
      by_season false e = refl
      by_season true e = ap not (
          (bytes_eq_iff c.confirmed_by (codes "user")).1
            (h ((bytes_eq_iff c.season_at_time (codes "spring")).0 e)))

  -- what is flagged while it is spring waits for the user
  abbrev Waits : Life → Type 0
  Waits l =
      l.feedback.season ≡ codes "spring"
      → All (λ p. p.requires_confirmation_from ≡ codes "user") l.flagged

  after_spring : Option Bytes → Bool
  after_spring none = true
  after_spring (some s) = not (bytes_eq s (codes "spring"))

  next_season-after_spring : (season : Bytes) → after_spring (next_season rates season) ≡ true
  unfolding after_spring bytes_eq
  next_season-after_spring season =
      season_cases rates (λ b o. after_spring o ≡ true) refl refl refl refl season

  no_return : (season next : Bytes) → next_season rates season ≡ some next → next ≢ codes "spring"
  unfolding after_spring
  no_return season next e spring =
      let away = subst (λ o. after_spring o ≡ true) e (next_season-after_spring season) in
      let home = (bytes_eq_iff next (codes "spring")).1 spring in cc

  flagged_waits :
      (id text : Bytes) (original : List D) (adjustments : List (ℕ × D)) (by reason : Bytes)
      (f : Feedback D)
      → f.season ≡ codes "spring"
      → (flag_miscalibration fs id text original adjustments by reason f).requires_confirmation_from
        ≡ codes "user"
  unfolding flag_miscalibration
  flagged_waits id text original adjustments by reason f h =
      rw ((bytes_eq_iff f.season (codes "spring")).1 h) refl

  All_at :
      {A : Type 0} (P : A → Type 0) (before : List A) (x : A) (after : List A)
      → All P (before ++ x ∷ after)
      → P x
  All_at P [] x after h = h.0
  All_at P (y ∷ before) x after h = All_at P before x after h.1

  user_only :
      (required who : Bytes)
      → (bytes_eq required (codes "user") && not (bytes_eq who (codes "user"))) ≡ false
      → required ≡ codes "user"
      → who ≡ codes "user"
  user_only required who h e =
      (bytes_eq_iff who (codes "user")).0 (only _ _ ((bytes_eq_iff required (codes "user")).1 e) h)
    where
      only : (a b : Bool) → a ≡ true → (a && not b) ≡ false → b ≡ true
      only true true p q = refl
      only true false p q = cc
      only false b p q = cc

  -- the guard of a confirmation, and what it writes
  Confirmed : PendingCorrection D → Bytes → Feedback D → EncoderCorrection D → Feedback D → Type 0
  Confirmed p who f c f' =
      (p.requires_confirmation_from ≡ codes "user" → who ≡ codes "user")
      × (c.season_at_time ≡ f.season)
      × (c.confirmed_by ≡ who)
      × (f'.season ≡ f.season)
      × (f'.corrections ≡ f.corrections ++ c ∷ [])

  confirm_correction-Confirmed :
      (now : ℕ) (p : PendingCorrection D) (who : Bytes) (f f' : Feedback D)
      (c : EncoderCorrection D)
      → confirm_correction fs now p who f ≡ some (c, f')
      → Confirmed p who f c f'
  unfolding confirm_correction Confirmed
  confirm_correction-Confirmed now p who f f' c e =
      let (guard, same) = guarded _ _ _ e in
      (
        user_only p.requires_confirmation_from who guard,
        sym (ap (λ r. r.0.season_at_time) same),
        sym (ap (λ r. r.0.confirmed_by) same),
        sym (ap (λ r. r.1.season) same),
        sym (ap (λ r. r.1.corrections) same)
            ∙ ap (λ d. f.corrections ++ d ∷ []) (ap (λ r. r.0) same),
      )

  step_keeps :
      {l m : Life}
      → Step l m
      → Waits l
      → All ByUser l.feedback.corrections
      → Waits m × All ByUser m.feedback.corrections
  unfolding update_season Confirmed
  step_keeps {l} (flag id text original adjustments by reason) w h = (
    λ spring. (flagged_waits id text original adjustments by reason l.feedback spring, w spring),
    h,
  )
  step_keeps {l} (confirm now before after p who c f at e) w h =
      let (user, time, by, season, corrections) =
        confirm_correction-Confirmed now p who l.feedback f c e in
      let from_user : c.season_at_time ≡ codes "spring" → c.confirmed_by ≡ codes "user" = λ spring.
        by
        ∙ user (
            All_at (λ q. q.requires_confirmation_from ≡ codes "user") before p after
              (subst (All (λ q. q.requires_confirmation_from ≡ codes "user")) at
                (w (sym time ∙ spring)))) in
      (
        λ spring. w (sym season ∙ spring),
        subst (All ByUser) (sym corrections)
            (All-append ByUser l.feedback.corrections (c ∷ []) h (ByUser_lem c from_user, tt)),
      )
  step_keeps {l} (turn next e) w h =
      (λ spring. absurd (no_return l.feedback.season next e spring), h)

  keeps :
      {l m : Life}
      → Reaches l m
      → Waits l
      → All ByUser l.feedback.corrections
      → Waits m × All ByUser m.feedback.corrections
  keeps start w h = (w, h)
  keeps (then_step r s) w h = let (w', h') = keeps r w h in step_keeps s w' h'

  -- From a life in which nothing is flagged or corrected, whatever its season: every correction that is ever confirmed
  -- in spring was confirmed by the user.
  pub spring_corrections :
      (l m : Life)
      → l.flagged ≡ []
      → l.feedback.corrections ≡ []
      → Reaches l m
      → All ByUser m.feedback.corrections
  spring_corrections l m none_flagged none_corrected r =
      (keeps r
        (λ spring.
          subst (All (λ q. q.requires_confirmation_from ≡ codes "user")) (sym none_flagged) tt)
        (subst (All ByUser) (sym none_corrected) tt)).1
