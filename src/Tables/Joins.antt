-- ===== src/Tables/Joins.antt =====
-- Joins of two tables and the sums over their rows, in the place of what SQLAlchemy does with `join`,
-- `isouter`, `func.count` and `func.sum`.
use affiliate_platform.Prelude.{
  map, ap, ◌∙◌, ℕ, ◌+◌, ◌*◌, ◌≡◌, refl, inl, inr, Bool, true, false, Option, none, some, List, [],
  ◌∷◌, ◌++◌, arith, if◌then◌else◌, Bool-cases, length, max, All, sym,
}
use affiliate_platform.Tables.Queries.{rows}

module _ {A B : Type 0} where
  -- A row with each of its partners.
  unfoldable pub paired : A → List B → List (A × B)
  paired a [] = []
  paired a (b ∷ bs) = (a, b) ∷ paired a bs

  -- `.join(B, on)`
  unfoldable pub inner_join : (A → B → Bool) → List A → List B → List (A × B)
  unfolding rows paired
  inner_join on [] bs = []
  inner_join on (a ∷ l) bs = paired a (rows (on a) bs) ++ inner_join on l bs

  unfoldable pub optional : A → List B → List (A × Option B)
  optional a [] = []
  optional a (b ∷ bs) = (a, some b) ∷ optional a bs

  -- A row without partners stands alone.
  unfoldable pub padded : A → List B → List (A × Option B)
  unfolding optional
  padded a [] = (a, none) ∷ []
  padded a (b ∷ bs) = optional a (b ∷ bs)

  -- `.join(B, on, isouter=True)`
  unfoldable pub left_join : (A → B → Bool) → List A → List B → List (A × Option B)
  unfolding rows padded
  left_join on [] bs = []
  left_join on (a ∷ l) bs = padded a (rows (on a) bs) ++ left_join on l bs

-- `func.sum`, where a NULL and a table without rows count as 0.
unfoldable pub total {ℓ} : {A : Type ℓ} → (A → ℕ) → List A → ℕ
total f [] = 0
total f (x ∷ l) = f x + total f l

-- 1 for each row that passes a test.
abbrev pub one_if : Bool → ℕ
one_if b = if b then 1 else 0

module _ {A : Type 0} where
  pub total-append : (f : A → ℕ) (l m : List A) → total f (l ++ m) ≡ total f l + total f m
  unfolding total
  total-append f [] m = omega arith
  total-append f (x ∷ l) m = omega (arith, total-append f l m)

  pub total-rows :
      (f : A → ℕ) (p : A → Bool) (l : List A)
      → total f (rows p l) ≡ total (λ x. if p x then f x else 0) l
  unfolding total rows
  total-rows f p [] = refl
  total-rows f p (x ∷ l) = ground (arith, total-rows f p l)

  pub total-ext : (f g : A → ℕ) (l : List A) → All (λ x. f x ≡ g x) l → total f l ≡ total g l
  unfolding total
  total-ext f g [] h = refl
  total-ext f g (x ∷ l) h = omega (arith, h.0, total-ext f g l h.1)

  pub total-add : (f g : A → ℕ) (l : List A) → total (λ x. f x + g x) l ≡ total f l + total g l
  unfolding total
  total-add f g [] = omega arith
  total-add f g (x ∷ l) = omega (arith, total-add f g l)

  pub total-zero : (l : List A) → total (λ x. 0) l ≡ 0
  unfolding total
  total-zero [] = refl
  total-zero (x ∷ l) = omega (arith, total-zero l)

  pub All-every : (P : A → Type 0) (l : List A) → ((x : A) → P x) → All P l
  All-every P [] h = tt
  All-every P (x ∷ l) h = (h x, All-every P l h)

  -- A test that does not depend on the row.
  pub total-if :
      (b : Bool) (f : A → ℕ) (l : List A)
      → total (λ x. if b then f x else 0) l ≡ (if b then total f l else 0)
  total-if true f l = refl
  total-if false f l = total-zero l

  -- The same number for each row that passes a test.
  pub total-const :
      (q : A → Bool) (k : ℕ) (l : List A)
      → total (λ x. if q x then k else 0) l ≡ k * length (rows q l)
  unfolding total rows
  total-const q k [] = omega arith
  total-const q k (x ∷ l) = elim (Bool-cases (q x)) [
    | inl e ↦ rw e (omega (arith, total-const q k l))
    | inr e ↦ rw e (omega (arith, total-const q k l))
  ]

  pub total-one : (l : List A) → total (λ x. 1) l ≡ length l
  unfolding total
  total-one [] = refl
  total-one (x ∷ l) = omega (arith, total-one l)

module _ {A B : Type 0} where
  pub total-map : (f : B → ℕ) (g : A → B) (l : List A) → total f (map g l) ≡ total (λ x. f (g x)) l
  unfolding total
  total-map f g [] = refl
  total-map f g (x ∷ l) = omega (arith, total-map f g l)

  pub total-paired :
      (f : A × B → ℕ) (a : A) (bs : List B) → total f (paired a bs) ≡ total (λ b. f (a, b)) bs
  unfolding total paired
  total-paired f a [] = refl
  total-paired f a (b ∷ bs) = omega (arith, total-paired f a bs)

  pub total-inner_join :
      (f : A × B → ℕ) (on : A → B → Bool) (l : List A) (bs : List B)
      → total f (inner_join on l bs) ≡ total (λ a. total (λ b. if on a b then f (a, b) else 0) bs) l
  unfolding total inner_join
  total-inner_join f on [] bs = refl
  total-inner_join f on (a ∷ l) bs = omega (
    arith,
    total-append f (paired a (rows (on a) bs)) (inner_join on l bs),
    total-paired f a (rows (on a) bs),
    total-rows (λ b. f (a, b)) (on a) bs,
    total-inner_join f on l bs,
  )

  pub total-left_join :
      (f : A × Option B → ℕ) (on : A → B → Bool) (l : List A) (bs : List B)
      → total f (left_join on l bs) ≡ total (λ a. total f (padded a (rows (on a) bs))) l
  unfolding total left_join
  total-left_join f on [] bs = refl
  total-left_join f on (a ∷ l) bs = omega (
    arith,
    total-append f (padded a (rows (on a) bs)) (left_join on l bs),
    total-left_join f on l bs,
  )

  length-optional : (a : A) (bs : List B) → length (optional a bs) ≡ length bs
  unfolding optional
  length-optional a [] = refl
  length-optional a (b ∷ bs) = omega (arith, length-optional a bs)

  All-optional :
      (P : A × Option B → Type 0) (a : A) (bs : List B)
      → ((o : Option B) → P (a, o))
      → All P (optional a bs)
  unfolding optional
  All-optional P a [] h = tt
  All-optional P a (b ∷ bs) h = (h (some b), All-optional P a bs h)

  -- Each row that a row gives has it on its left.
  pub All-padded :
      (P : A × Option B → Type 0) (a : A) (bs : List B)
      → ((o : Option B) → P (a, o))
      → All P (padded a bs)
  unfolding padded
  All-padded P a [] h = (h none, tt)
  All-padded P a (b ∷ bs) h = All-optional P a (b ∷ bs) h

  pub total-optional :
      (f : A × Option B → ℕ) (a : A) (bs : List B)
      → total f (optional a bs) ≡ total (λ b. f (a, some b)) bs
  unfolding total optional
  total-optional f a [] = refl
  total-optional f a (b ∷ bs) = omega (arith, total-optional f a bs)

  -- Where a row that stands alone counts nothing, it does not matter that it stands there.
  pub total-padded :
      (f : A × Option B → ℕ) (a : A) (bs : List B)
      → f (a, none) ≡ 0
      → total f (padded a bs) ≡ total (λ b. f (a, some b)) bs
  unfolding total padded
  total-padded f a [] e = omega (arith, e)
  total-padded f a (b ∷ bs) e = total-optional f a (b ∷ bs)

  -- A row gives as many rows as it has partners, and one if it has none.
  pub length-padded : (a : A) (bs : List B) → length (padded a bs) ≡ max 1 (length bs)
  unfolding padded
  length-padded a [] = refl
  length-padded a (b ∷ bs) = omega (arith, length-optional a bs)

  one-padded :
      (p : A → Bool) (a : A) (bs : List B)
      → total (λ (row : A × Option B). one_if (p row.0)) (padded a bs)
        ≡ (if p a then max 1 (length bs) else 0)
  one-padded p a bs =
      total-ext (λ (row : A × Option B). one_if (p row.0)) (λ row. one_if (p a)) (padded a bs)
        (All-padded _ a bs (λ o. refl))
      ∙ total-if (p a) (λ row. 1) (padded a bs)
      ∙ ap (λ (n : ℕ). if p a then n else 0) (total-one (padded a bs) ∙ length-padded a bs)

  -- The rows of a left join whose left side passes a test.
  pub length-left_join :
      (p : A → Bool) (on : A → B → Bool) (l : List A) (bs : List B)
      → length (rows (λ (row : A × Option B). p row.0) (left_join on l bs))
        ≡ total (λ a. if p a then max 1 (length (rows (on a) bs)) else 0) l
  length-left_join p on l bs =
      let test = λ (row : A × Option B). p row.0 in
      sym (total-one (rows test (left_join on l bs)))
      ∙ total-rows (λ row. 1) test (left_join on l bs)
      ∙ total-left_join (λ row. one_if (test row)) on l bs
      ∙ total-ext _ _ l (All-every _ l (λ a. one-padded p a (rows (on a) bs)))

  -- The order of two sums does not matter.
  pub total_swap :
      (f : A → B → ℕ) (l : List A) (bs : List B)
      → total (λ a. total (λ b. f a b) bs) l ≡ total (λ b. total (λ a. f a b) l) bs
  unfolding total
  total_swap f [] bs = sym (total-zero bs)
  total_swap f (a ∷ l) bs =
      omega (arith, total_swap f l bs, total-add (λ b. f a b) (λ b. total (λ x. f x b) l) bs)
