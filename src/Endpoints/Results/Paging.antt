-- ===== src/Endpoints/Results/Paging.antt =====
-- The pages of `get_reconciliation_results`
-- (affiliate-reconciliation-backend/app/api/v1/endpoints/reconciliation.py).
use affiliate_platform.Prelude.{◌∷◌, ◌∙◌, sym, ap, true, ◌+◌, ◌++◌, ◌≡◌, ◌≤◌, All, arith, refl}
use affiliate_platform.Access.{is_among, require_role}
use affiliate_platform.Tables.Joins.{All-every}
use affiliate_platform.Tables.{All-offset, All-limit, All-rows, offset}
use affiliate_platform.Endpoints.Results.{
  granted, [], client, admin, User, limit, rows, ℕ, DiscrepancyLevel, ReconciliationStatus, Option,
  List, LogRow, matching_logs, get_reconciliation_results, passes_log_filters, is_newer_log,
  is_page_limit,
}
use affiliate_platform.Tables.Pages.{
  IsSorted, IsOrder, limit-append, offset-offset, offset-IsSorted, limit-IsSorted,
}
use affiliate_platform.Tables.OrderBy.{IsOrderBy, IsDistinct, order_unique, All-order}

pub is_newer_log-IsOrder : IsOrder LogRow is_newer_log
is_newer_log-IsOrder = record {
  connected = λ x y e. ground (arith, e);
  transitive = λ x y z e f. ground (arith, e, f);
}

abbrev pub selected :
    List LogRow → Option ReconciliationStatus → Option DiscrepancyLevel → List LogRow
selected logs s l = rows (passes_log_filters s l) logs

module _ (logs : List LogRow) (s : Option ReconciliationStatus) (l : Option DiscrepancyLevel)
    (order_by : List LogRow → List LogRow) (law : IsOrderBy LogRow is_newer_log order_by) where
  -- The rows of a page.
  abbrev pub page : ℕ → ℕ → List LogRow
  page n k = limit n (offset k (order_by (selected logs s l)))

  page-IsSorted : (n k : ℕ) → IsSorted is_newer_log (page n k)
  page-IsSorted n k =
      let rows_of = order_by (selected logs s l) in
      limit-IsSorted is_newer_log is_newer_log-IsOrder n (offset k rows_of) (
        offset-IsSorted is_newer_log is_newer_log-IsOrder k rows_of
          (law.sorted (selected logs s l)))

  page-passes : (n k : ℕ) → All (λ log. passes_log_filters s l log ≡ true) (page n k)
  page-passes n k =
      let P = λ (log : LogRow). passes_log_filters s l log ≡ true in
      All-limit P n _ (
        All-offset P k _ (
          All-order is_newer_log P order_by (selected logs s l) law
            (All-rows P (passes_log_filters s l) logs (All-every _ logs (λ log e. e)))))

  page-append : (n m k : ℕ) → page n k ++ page m (k + n) ≡ page (n + m) k
  page-append n m k =
      let rows_of = order_by (selected logs s l) in
      ap (λ r. page n k ++ limit m r) (sym (offset-offset k n rows_of))
      ∙ limit-append n m (offset k rows_of)

  granted-page :
      (user : User) (n k : ℕ)
      → is_among user.role (admin ∷ client ∷ []) ≡ true
      → (1 ≤ n) × (n ≤ 500)
      → get_reconciliation_results order_by logs user s l n k ≡ granted (page n k)
  unfolding get_reconciliation_results require_role matching_logs
  granted-page user n k e b =
      let fits : is_page_limit n ≡ true = ground (arith, b.0, b.1) in rw (e, fits) refl

-- For an administrator or a client, and for limits from 1 to 500, a page and the one that starts behind
-- it are one page of both lengths, if the rows that pass the filters have different times: without a
-- gap and without a row twice, however the database orders rows by their time in each of the three
-- queries. The rows of the long page pass both filters and stand with the newest first.
pub get_reconciliation_results-pages :
    (logs : List LogRow) (user : User) (s : Option ReconciliationStatus)
    (l : Option DiscrepancyLevel) (order order' order'' : List LogRow → List LogRow) (n m k : ℕ)
    → IsOrderBy LogRow is_newer_log order
    → IsOrderBy LogRow is_newer_log order'
    → IsOrderBy LogRow is_newer_log order''
    → IsDistinct is_newer_log (selected logs s l)
    → is_among user.role (admin ∷ client ∷ []) ≡ true
    → 1 ≤ n
    → 1 ≤ m
    → n + m ≤ 500
    → (a : List LogRow) × (b : List LogRow) × (get_reconciliation_results order logs user s l n k
        ≡ granted a)
      × (get_reconciliation_results order' logs user s l m (k + n) ≡ granted b)
      × (get_reconciliation_results order'' logs user s l (n + m) k ≡ granted (a ++ b))
      × IsSorted is_newer_log (a ++ b)
      × All (λ log. passes_log_filters s l log ≡ true) (a ++ b)
get_reconciliation_results-pages logs user s l order order' order'' n m k o o' o'' d e i j h =
    let t = selected logs s l in
    let same_as : order' t ≡ order t = order_unique is_newer_log order' order t o' o d in
    let same_as' : order'' t ≡ order t = order_unique is_newer_log order'' order t o'' o d in
    let whole = page-append logs s l order o n m k in
    (
      page logs s l order o n k,
      page logs s l order o m (k + n),
      granted-page logs s l order o user n k e (omega (arith, i, j, h), omega (arith, i, j, h)),
      granted-page logs s l order' o' user m (k + n) e
            (omega (arith, i, j, h), omega (arith, i, j, h))
          ∙ ap (λ r. granted (limit m (offset (k + n) r))) same_as,
      granted-page logs s l order'' o'' user (n + m) k e
            (omega (arith, i, j, h), omega (arith, i, j, h))
          ∙ ap (λ r. granted (limit (n + m) (offset k r))) same_as'
          ∙ ap granted (sym whole),
      rw whole (page-IsSorted logs s l order o (n + m) k),
      rw whole (page-passes logs s l order o (n + m) k),
    )
