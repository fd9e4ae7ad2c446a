-- ===== src/Analytics/Health.antt =====
-- The reconciliation health of a campaign against its reports and their logs
-- (affiliate-reconciliation-backend/app/api/v1/endpoints/analytics.py).
use affiliate_platform.Prelude.{
  ◌∷◌, ◌-◌, ap, ◌∙◌, max, sym, [], if◌then◌else◌, ◌↔◌, not, ltb→lt, ◌≡◌, round_half_even_near, All,
  inl, arith, ◌+◌, ◌*◌, inr, ◌<◌, Bool-cases, none, some, ◌≤◌,
}
use affiliate_platform.Tables.Joins.{
  total-zero, total-if, total-optional, length-left_join, All-every, total-ext, total-left_join,
  total-one, total-rows, padded, total,
}
use affiliate_platform.Analytics.{
  left_join, false, round_half_even, true, inner_join, rows, Bool, length, one_if, LogRow, Post,
  AffiliateReport, ltb, List, Option, ℕ, Facts, is_on_post, in_campaign, is_log_of, recon_rows,
  is_success, success_log, has_no_log, Reconciliation, rate_of, health_of,
}

-- Of the rows, those without a log and those with a successful one are different rows.
success-pending-le :
    (l : List ((AffiliateReport × Post) × Option LogRow))
    → total (λ row. one_if (success_log row.1)) l + total (λ row. one_if (has_no_log row.1)) l
      ≤ length l
unfolding total
success-pending-le [] = omega arith
success-pending-le ((a, none) ∷ l) = omega (arith, success-pending-le l)
success-pending-le ((a, some log) ∷ l) =
    let one : one_if (is_success log.status) ≤ 1 = ground arith in
    omega (arith, one, success-pending-le l)

-- A rate between 0 and 1, in ten-thousandths.
abbrev RateInScale : Option ℕ → Type 0
RateInScale none = Unit
RateInScale (some r) = r ≤ 10000

rate-le : (s n r : ℕ) → s ≤ n → 0 < n → 2 * n * r ≤ 2 * (s * 10000) + n → r ≤ 10000
rate-le s n r h pos near = grind arith

rate_of-InScale : (s n : ℕ) → s ≤ n → RateInScale (rate_of s n)
rate_of-InScale s n h = elim (Bool-cases (ltb 0 n)) [
  | inr e ↦ rw e tt
  | inl e ↦
      let near = round_half_even_near (s * 10000) n (ltb→lt 0 n e) in
      rw e (rate-le s n (round_half_even (s * 10000) n) h (ltb→lt 0 n e) near)
]

-- The reports of a campaign, each with its post.
abbrev pub campaign_reports : Facts → ℕ → List (AffiliateReport × Post)
campaign_reports t campaign_id =
    rows (λ a. in_campaign campaign_id a.1) (inner_join is_on_post t.reports t.posts)

abbrev pub logs_of : Facts → AffiliateReport × Post → List LogRow
logs_of t a = rows (is_log_of a) t.logs

abbrev pub is_empty {ℓ} : {A : Type ℓ} → List A → Bool
is_empty [] = true
is_empty (x ∷ l) = false

-- The column of the logs is unique.
abbrev pub HasOneLog : Facts → Type 0
HasOneLog t = All (λ a. length (logs_of t a) ≤ 1) (inner_join is_on_post t.reports t.posts)

-- What the health is of: the reports without a log, and those with one.
pub record HealthMeans (t : Facts) (campaign_id : ℕ) (h : Reconciliation) : Type 0 where
  pub pending :
      h.pending_reports
      ≡ length (rows (λ a. is_empty (logs_of t a)) (campaign_reports t campaign_id))
  pub reconciled :
      h.total_reconciled
      ≡ length (rows (λ a. not (is_empty (logs_of t a))) (campaign_reports t campaign_id))
  pub in_scale : RateInScale h.success_rate
  pub no_rate : (h.total_reconciled ≡ 0) ↔ (h.success_rate ≡ none)

-- A report with at most one log is in one row.
split_row :
    (b : Bool) (logs : List LogRow)
    → length logs ≤ 1
    → (if b then max 1 (length logs) else 0)
      ≡ (if b then one_if (is_empty logs) else 0) + (if b then one_if (not (is_empty logs)) else 0)
split_row false logs h = omega arith
split_row true [] h = omega arith
split_row true (log ∷ logs) h = omega (arith, h)

module _ (t : Facts) (campaign_id : ℕ) where
  abbrev pairs : List (AffiliateReport × Post)
  pairs = inner_join is_on_post t.reports t.posts

  abbrev inside : AffiliateReport × Post → Bool
  inside a = in_campaign campaign_id a.1

  -- How many of the reports of the campaign pass a test.
  length-inside :
      (q : AffiliateReport × Post → Bool)
      → length (rows q (campaign_reports t campaign_id))
        ≡ total (λ a. if inside a then one_if (q a) else 0) pairs
  length-inside q =
      sym (total-one (rows q (rows inside pairs)))
      ∙ total-rows (λ a. 1) q (rows inside pairs)
      ∙ total-rows (λ a. one_if (q a)) inside pairs

  pending-padded :
      (a : AffiliateReport × Post) (logs : List LogRow)
      → total (λ row. if inside row.0 then one_if (has_no_log row.1) else 0) (padded a logs)
        ≡ (if inside a then one_if (is_empty logs) else 0)
  unfolding total padded
  pending-padded a [] = omega arith
  pending-padded a (log ∷ logs) =
      total-optional (λ row. if inside row.0 then one_if (has_no_log row.1) else 0) a (log ∷ logs)
      ∙ total-if (inside a) (λ b. 0) (log ∷ logs)
      ∙ ap (λ (n : ℕ). if inside a then n else 0) (total-zero (log ∷ logs))

  pending_sum :
      total (λ row. one_if (has_no_log row.1)) (recon_rows t campaign_id)
      ≡ total (λ a. if inside a then one_if (is_empty (logs_of t a)) else 0) pairs
  unfolding recon_rows
  pending_sum =
      total-rows (λ row. one_if (has_no_log row.1)) (λ row. inside row.0)
        (left_join is_log_of pairs t.logs)
      ∙ total-left_join (λ row. if inside row.0 then one_if (has_no_log row.1) else 0) is_log_of
          pairs t.logs
      ∙ total-ext _ _ pairs (All-every _ pairs (λ a. pending-padded a (logs_of t a)))

  -- One row for each report.
  one_row :
      (l : List (AffiliateReport × Post))
      → All (λ a. length (logs_of t a) ≤ 1) l
      → total (λ a. if inside a then max 1 (length (logs_of t a)) else 0) l
        ≡ total (λ a. if inside a then one_if (is_empty (logs_of t a)) else 0) l
          + total (λ a. if inside a then one_if (not (is_empty (logs_of t a))) else 0) l
  unfolding total
  one_row [] h = omega arith
  one_row (a ∷ l) h = omega (arith, split_row (inside a) (logs_of t a) h.0, one_row l h.1)

  rows-length :
      HasOneLog t
      → length (recon_rows t campaign_id)
        ≡ length (rows (λ a. is_empty (logs_of t a)) (campaign_reports t campaign_id))
          + length (rows (λ a. not (is_empty (logs_of t a))) (campaign_reports t campaign_id))
  unfolding recon_rows
  rows-length h = omega (
    arith,
    length-left_join inside is_log_of pairs t.logs,
    one_row pairs h,
    length-inside (λ a. is_empty (logs_of t a)),
    length-inside (λ a. not (is_empty (logs_of t a))),
  )

  pending-reports :
      total (λ row. one_if (has_no_log row.1)) (recon_rows t campaign_id)
      ≡ length (rows (λ a. is_empty (logs_of t a)) (campaign_reports t campaign_id))
  pending-reports = pending_sum ∙ sym (length-inside (λ a. is_empty (logs_of t a)))

rate_of-none : (s n : ℕ) → (n ≡ 0) ↔ (rate_of s n ≡ none)
rate_of-none s n = ground arith

-- Where a report has at most one log, the pending reports are the reports of the campaign without a
-- log, the reconciled ones those with a log, and there is a success rate, between 0 and 1, exactly
-- if there are reconciled ones.
pub health_of-HealthMeans :
    (t : Facts) (campaign_id : ℕ)
    → HasOneLog t
    → HealthMeans t campaign_id (health_of (recon_rows t campaign_id))
unfolding health_of
health_of-HealthMeans t campaign_id h =
    let l = recon_rows t campaign_id in
    let pending = pending-reports t campaign_id in
    let all = rows-length t campaign_id h in
    let s = total (λ row. one_if (success_log row.1)) l in
    let n = length l - total (λ row. one_if (has_no_log row.1)) l in
    record {
      pending = pending;
      reconciled = omega (arith, pending, all);
      in_scale = rate_of-InScale s n (omega (arith, success-pending-le l));
      no_rate = rate_of-none s n;
    }
