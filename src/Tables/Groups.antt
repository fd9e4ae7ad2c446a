-- ===== src/Tables/Groups.antt =====
-- `group_by` on the rows of a query: one group for each key, in no particular order.
use affiliate_platform.Prelude.{
  length, map, true, ℕ, ◌+◌, ◌≡◌, refl, Bool, List, [], ◌∷◌, arith, if◌then◌else◌,
}
use affiliate_platform.Tables.Queries.{rows}
use affiliate_platform.Tables.Joins.{total}

module _ {K A : Type 0} (same_key : K → K → Bool) where
  -- A row is put to the group of its key.
  unfoldable pub grouped_with : K → A → List (K × List A) → List (K × List A)
  grouped_with k x [] = (k, x ∷ []) ∷ []
  grouped_with k x ((j, l) ∷ groups) =
      if same_key j k then (j, x ∷ l) ∷ groups else (j, l) ∷ grouped_with k x groups

  unfoldable pub grouped : (A → K) → List A → List (K × List A)
  unfolding grouped_with
  grouped key [] = []
  grouped key (x ∷ l) = grouped_with (key x) x (grouped key l)

  total-grouped_with :
      (f : A → ℕ) (k : K) (x : A) (groups : List (K × List A))
      → total (λ g. total f g.1) (grouped_with k x groups) ≡ f x + total (λ g. total f g.1) groups
  unfolding total grouped_with
  total-grouped_with f k x [] = omega arith
  total-grouped_with f k x ((j, l) ∷ groups) = ground (arith, total-grouped_with f k x groups)

  -- No row is lost or counted twice.
  pub total-grouped :
      (f : A → ℕ) (key : A → K) (l : List A) → total (λ g. total f g.1) (grouped key l) ≡ total f l
  unfolding total grouped
  total-grouped f key [] = refl
  total-grouped f key (x ∷ l) =
      omega (arith, total-grouped_with f (key x) x (grouped key l), total-grouped f key l)

-- The size of each group.
abbrev pub sizes : {K A : Type 0} → List (K × List A) → List (K × ℕ)
sizes groups = map (λ g. (g.0, length g.1)) groups

-- A test of keys that is an equality.
pub record IsKey (K : Type 0) (same_key : K → K → Bool) : Type 0 where
  pub symmetric : (j k : K) → same_key j k ≡ same_key k j
  pub congruent : (i j k : K) → same_key i j ≡ true → same_key i k ≡ same_key j k

-- The entry of a key, and 0 without one.
unfoldable pub size_of : {K : Type 0} → (K → K → Bool) → K → List (K × ℕ) → ℕ
size_of same_key k [] = 0
size_of same_key k (entry ∷ counts) =
    if same_key entry.0 k then entry.1 else size_of same_key k counts

module _ {K A : Type 0} (same_key : K → K → Bool) where
  size_of-grouped_with :
      (law : IsKey K same_key) (k j : K) (x : A) (groups : List (K × List A))
      → size_of same_key k (sizes (grouped_with same_key j x groups))
        ≡ (if same_key j k then 1 else 0) + size_of same_key k (sizes groups)
  unfolding size_of grouped_with
  size_of-grouped_with law k j x [] = ground arith
  size_of-grouped_with law k j x ((i, l) ∷ groups) = ground (
    arith,
    law.congruent i j k,
    law.congruent i k j,
    law.symmetric j k,
    size_of-grouped_with law k j x groups,
  )

  -- The group of a key has the rows with that key.
  pub size_of-grouped :
      (law : IsKey K same_key) (key : A → K) (k : K) (l : List A)
      → size_of same_key k (sizes (grouped same_key key l))
        ≡ length (rows (λ x. same_key (key x) k) l)
  unfolding grouped rows size_of
  size_of-grouped law key k [] = refl
  size_of-grouped law key k (x ∷ l) = ground (
    arith,
    size_of-grouped_with law k (key x) x (grouped same_key key l),
    size_of-grouped law key k l,
  )
