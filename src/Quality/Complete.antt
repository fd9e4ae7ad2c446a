-- ===== src/Quality/Complete.antt =====
-- Which flags a submission is given
-- (affiliate-reconciliation-backend/app/services/data_quality_validators.py).
use mathlib.Core.Path.{subst}
use affiliate_platform.Prelude.{
  ℕ, ◌+◌, ◌-◌, ◌*◌, ◌/◌, ◌≤◌, ◌<◌, ◌≡◌, refl, ◌↔◌, ◌⊎◌, inl, inr, Bool, true, false, not, ◌&&◌,
  Option, none, some, List, [], ◌∷◌, ◌++◌, arith, ltb, leb, ◌==◌, All,
}
use affiliate_platform.Classifier.{Claim}
use affiliate_platform.Quality.{
  Metric, views, clicks, conversions, Key, high_ctr, high_cvr, metric_order_violation,
  missing_evidence, decrease, spike, Severity, Flag, ratio, exceeds_pct, rule_ratio,
  rule_metric_order, rule_evidence_required, check_decrease, check_spike, each_metric,
  evaluate_submission,
}
use affiliate_platform.Quality.Rules.{
  Against, IsHigh, KeyMeans, FlagMeans, evaluate_submission-FlagMeans,
}

-- A list has a flag with this key.
abbrev pub Raises : Key → List Flag → Type 0
Raises key [] = ⊥
Raises key (f ∷ l) = (f.key ≡ key) ⊎ Raises key l

Raises-left : (key : Key) (l m : List Flag) → Raises key l → Raises key (l ++ m)
Raises-left key [] m h = absurd h
Raises-left key (f ∷ l) m (inl e) = inl e
Raises-left key (f ∷ l) m (inr h) = inr (Raises-left key l m h)

Raises-right : (key : Key) (l m : List Flag) → Raises key m → Raises key (l ++ m)
Raises-right key [] m h = h
Raises-right key (f ∷ l) m h = inr (Raises-right key l m h)

-- The condition of each key: a ratio above its limit; metrics out of order; many views without
-- evidence; a metric that fell by more than a hundredth; one that grew more than sixfold.
abbrev pub KeyCause : Option Claim → Claim → Bool → Key → Type 0
KeyCause previous c has_evidence high_ctr = IsHigh c.clicks c.views 100 35
KeyCause previous c has_evidence high_cvr = IsHigh c.conversions c.clicks 20 60
KeyCause previous c has_evidence metric_order_violation =
    (c.views < c.clicks) ⊎ (c.clicks < c.conversions)
KeyCause previous c has_evidence missing_evidence = (50000 ≤ c.views) × (has_evidence ≡ false)
KeyCause previous c has_evidence (decrease name) =
    Against (λ new old. new + old / 100 < old) name previous c
KeyCause previous c has_evidence (spike name) =
    Against (λ new old. (0 < old) × (6 * old < new)) name previous c

ratio-Raises :
    (key : Key) (n d min_base pct : ℕ)
    → 0 < min_base
    → IsHigh n d min_base pct
    → Raises key (rule_ratio key n d min_base pct)
unfolding rule_ratio ratio exceeds_pct
ratio-Raises key n d min_base pct positive h =
    let enough : ltb d min_base ≡ false = ground arith in
    let nonzero : (d == 0) ≡ false = ground arith in
    let above : ltb (pct * d) (100 * n) ≡ true = ground arith in
    rw (enough, nonzero) (rw above (inl refl))

order-Raises :
    (c : Claim)
    → (c.views < c.clicks) ⊎ (c.clicks < c.conversions)
    → Raises metric_order_violation (rule_metric_order c)
unfolding rule_metric_order
order-Raises c h =
    let e : (leb c.clicks c.views && leb c.conversions c.clicks) ≡ false = ground arith in
    rw e (inl refl)

evidence-Raises :
    (n : ℕ) (has_evidence : Bool)
    → (50000 ≤ n) × (has_evidence ≡ false)
    → Raises missing_evidence (rule_evidence_required n has_evidence)
unfolding rule_evidence_required
evidence-Raises n has_evidence h =
    let e : (leb 50000 n && not has_evidence) ≡ true = ground arith in rw e (inl refl)

decrease-Raises :
    (name : Metric) (new old : ℕ)
    → new + old / 100 < old
    → Raises (decrease name) (check_decrease name new old)
unfolding check_decrease
decrease-Raises name new old h =
    let nonzero : (old == 0) ≡ false = ground arith in
    let fell : ltb (new + old / 100) old ≡ true = ground arith in rw nonzero (rw fell (inl refl))

spike-Raises :
    (name : Metric) (new old : ℕ)
    → (0 < old) × (6 * old < new)
    → Raises (spike name) (check_spike name new old)
unfolding check_spike
spike-Raises name new old h =
    let nonzero : (old == 0) ≡ false = ground arith in
    let grew : ltb (5 * old) (new - old) ≡ true = ground arith in rw nonzero (rw grew (inl refl))

-- A rule on every metric raises what its rule on one of them raises.
each-Raises :
    (key : Key) (rule : Metric → ℕ → ℕ → List Flag) (P : ℕ → ℕ → Type 0) (name : Metric)
    (previous : Option Claim) (c : Claim)
    → ((new old : ℕ) → P new old → Raises key (rule name new old))
    → Against P name previous c
    → Raises key (each_metric rule previous c)
unfolding each_metric
each-Raises key rule P name none c h a = absurd a
each-Raises key rule P views (some p) c h a = Raises-left key _ _ (h _ _ a)
each-Raises key rule P clicks (some p) c h a =
    Raises-right key (rule views c.views p.views) _ (Raises-left key _ _ (h _ _ a))
each-Raises key rule P conversions (some p) c h a =
    Raises-right key (rule views c.views p.views) _
      (Raises-right key (rule clicks c.clicks p.clicks) _ (h _ _ a))

-- Every condition raises its flag, in its part of the list.
module _ (previous : Option Claim) (c : Claim) (has_evidence : Bool) where
  ctr_flags : List Flag
  ctr_flags = rule_ratio high_ctr c.clicks c.views 100 35

  cvr_flags : List Flag
  cvr_flags = rule_ratio high_cvr c.conversions c.clicks 20 60

  -- A flag of the rules after the ratios is a flag of the submission.
  after_ratios :
      (key : Key)
      → Raises key (
          rule_metric_order c
          ++ (rule_evidence_required c.views has_evidence
              ++ (each_metric check_decrease previous c ++ each_metric check_spike previous c)))
      → Raises key (evaluate_submission previous c has_evidence)
  unfolding evaluate_submission ctr_flags cvr_flags
  after_ratios key h = Raises-right key ctr_flags _ (Raises-right key cvr_flags _ h)

  after_evidence :
      (key : Key)
      → Raises key (each_metric check_decrease previous c ++ each_metric check_spike previous c)
      → Raises key (evaluate_submission previous c has_evidence)
  after_evidence key h = after_ratios key (
      Raises-right key (rule_metric_order c) _
        (Raises-right key (rule_evidence_required c.views has_evidence) _ h))

  cause-Raises :
      (key : Key)
      → KeyCause previous c has_evidence key
      → Raises key (evaluate_submission previous c has_evidence)
  unfolding evaluate_submission ctr_flags cvr_flags
  cause-Raises high_ctr h =
      Raises-left high_ctr ctr_flags _
        (ratio-Raises high_ctr c.clicks c.views 100 35 (omega arith) h)
  cause-Raises high_cvr h = Raises-right high_cvr ctr_flags _ (
      Raises-left high_cvr cvr_flags _
        (ratio-Raises high_cvr c.conversions c.clicks 20 60 (omega arith) h))
  cause-Raises metric_order_violation h =
      after_ratios metric_order_violation
        (Raises-left metric_order_violation (rule_metric_order c) _ (order-Raises c h))
  cause-Raises missing_evidence h = after_ratios missing_evidence (
      Raises-right missing_evidence (rule_metric_order c) _ (
        Raises-left missing_evidence (rule_evidence_required c.views has_evidence) _
          (evidence-Raises c.views has_evidence h)))
  cause-Raises (decrease name) h = after_evidence (decrease name) (
      Raises-left (decrease name) (each_metric check_decrease previous c) _
        (each-Raises (decrease name) check_decrease _ name previous c (decrease-Raises name) h))
  cause-Raises (spike name) h = after_evidence (spike name) (
      Raises-right (spike name) (each_metric check_decrease previous c) _
        (each-Raises (spike name) check_spike _ name previous c (spike-Raises name) h))

KeyMeans-KeyCause :
    (previous : Option Claim) (c : Claim) (has_evidence : Bool) (key : Key) (s : Severity)
    → KeyMeans previous c has_evidence key s
    → KeyCause previous c has_evidence key
KeyMeans-KeyCause previous c has_evidence high_ctr s h = h.0
KeyMeans-KeyCause previous c has_evidence high_cvr s h = h.0
KeyMeans-KeyCause previous c has_evidence metric_order_violation s h = h
KeyMeans-KeyCause previous c has_evidence missing_evidence s h = h
KeyMeans-KeyCause previous c has_evidence (decrease name) s h = h
KeyMeans-KeyCause previous c has_evidence (spike name) s h = h

Raises-KeyCause :
    (previous : Option Claim) (c : Claim) (has_evidence : Bool) (key : Key) (l : List Flag)
    → All (FlagMeans previous c has_evidence) l
    → Raises key l
    → KeyCause previous c has_evidence key
Raises-KeyCause previous c has_evidence key [] meant h = absurd h
Raises-KeyCause previous c has_evidence key (f ∷ l) meant (inl e) =
    subst (KeyCause previous c has_evidence) e
      (KeyMeans-KeyCause previous c has_evidence f.key f.severity meant.0)
Raises-KeyCause previous c has_evidence key (f ∷ l) meant (inr h) =
    Raises-KeyCause previous c has_evidence key l meant.1 h

-- A submission is given exactly the flags whose condition holds: a click rate above 35 % of at least
-- 100 views; a conversion rate above 60 % of at least 20 clicks; metrics out of order; at least 50000
-- views without evidence; a metric that fell by more than a hundredth since the previous report; one
-- that grew more than sixfold from a positive value. A flag of a rate is of high severity exactly from
-- three times the limit on, the limit's triple included.
pub evaluate_submission-KeyCause :
    (previous : Option Claim) (c : Claim) (has_evidence : Bool) (key : Key)
    → (Raises key (evaluate_submission previous c has_evidence)
        ↔ KeyCause previous c has_evidence key)
      × All (FlagMeans previous c has_evidence) (evaluate_submission previous c has_evidence)
evaluate_submission-KeyCause previous c has_evidence key =
    let meant = evaluate_submission-FlagMeans previous c has_evidence in
    (
      (
        Raises-KeyCause previous c has_evidence key _ meant,
        cause-Raises previous c has_evidence key,
      ),
      meant,
    )
