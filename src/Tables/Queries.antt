-- ===== src/Tables/Queries.antt =====
-- The queries on a table: the first row that passes a filter, all of them, their number, and a row
-- that is written back. They stand for what SQLAlchemy does with `filter`, `first`, `all`, `count`,
-- `offset` and `limit`.
use affiliate_platform.Prelude.{
  ◌∙◌, ap, ℕ, zero, suc, ◌≤◌, ◌≡◌, refl, sym, ◌⊎◌, inl, inr, Bool, true, false, Option, none, some,
  List, [], ◌∷◌, arith, if◌then◌else◌, Bool-cases, length, All,
}
use mathlib.Core.Path.{subst}

-- A member of a list.
abbrev pub IsIn : {A : Type 0} → A → List A → Type 0
IsIn x [] = ⊥
IsIn x (y ∷ l) = (x ≡ y) ⊎ IsIn x l

module _ {A : Type 0} where
  -- `query(...).filter(...).first()`.
  unfoldable pub first : (A → Bool) → List A → Option A
  first p [] = none
  first p (x ∷ rest) = let found = first p rest in if p x then some x else found

  -- `query(...).filter(...).all()`.
  unfoldable pub rows : (A → Bool) → List A → List A
  rows p [] = []
  rows p (x ∷ rest) = if p x then x ∷ rows p rest else rows p rest

  -- `.offset(n)` and `.limit(n)`.
  unfoldable pub offset : ℕ → List A → List A
  offset zero l = l
  offset (suc n) [] = []
  offset (suc n) (x ∷ l) = offset n l

  unfoldable pub limit : ℕ → List A → List A
  limit zero l = []
  limit (suc n) [] = []
  limit (suc n) (x ∷ l) = x ∷ limit n l

  -- What a query answers: a row of the table that passes the filter, or that there is none.
  abbrev pub Found : (A → Bool) → List A → Option A → Type 0
  Found p l none = All (λ x. p x ≡ false) l
  Found p l (some x) = (p x ≡ true) × IsIn x l

  Found-later :
      (p : A → Bool) (x : A) (l : List A) (o : Option A)
      → p x ≡ false
      → Found p l o
      → Found p (x ∷ l) o
  Found-later p x l none e h = (e, h)
  Found-later p x l (some y) e h = (h.0, inr h.1)

  pub first-Found : (p : A → Bool) (l : List A) → Found p l (first p l)
  unfolding first
  first-Found p [] = tt
  first-Found p (x ∷ rest) = elim (Bool-cases (p x)) [
    | inl e ↦ rw e (e, inl refl)
    | inr e ↦ rw e (Found-later p x rest (first p rest) e (first-Found p rest))
  ]

  pub first-none : (p : A → Bool) (l : List A) → first p l ≡ none → All (λ x. p x ≡ false) l
  first-none p l e = rw e at (first-Found p l)

  pub All-IsIn {κ} : (P : A → Type κ) (x : A) (l : List A) → All P l → IsIn x l → P x
  All-IsIn P x [] h m = absurd m
  All-IsIn P x (y ∷ l) h (inl e) = subst P (sym e) h.0
  All-IsIn P x (y ∷ l) h (inr m) = All-IsIn P x l h.1 m

  -- A row that passes the filter is in the answer.
  pub rows-IsIn : (p : A → Bool) (x : A) (l : List A) → p x ≡ true → IsIn x l → IsIn x (rows p l)
  unfolding rows
  rows-IsIn p x [] e m = absurd m
  rows-IsIn p x (y ∷ l) e (inl k) = rw (sym (ap p k) ∙ e) (inl k)
  rows-IsIn p x (y ∷ l) e (inr m) = elim (Bool-cases (p y)) [
    | inl k ↦ rw k (inr (rows-IsIn p x l e m))
    | inr k ↦ rw k (rows-IsIn p x l e m)
  ]

  -- A page holds rows of the table, and no more than its limit.
  pub length-limit : (n : ℕ) (l : List A) → length (limit n l) ≤ n
  unfolding limit
  length-limit zero l = omega arith
  length-limit (suc n) [] = omega arith
  length-limit (suc n) (x ∷ l) = omega (arith, length-limit n l)

module _ {A : Type 0} where
  -- A row that is changed and written back.
  unfoldable pub updated : (A → Bool) → (A → A) → List A → List A
  updated p f [] = []
  updated p f (x ∷ l) = (if p x then f x else x) ∷ updated p f l

  unfoldable pub inserted : (A → A → Bool) → A → List A → List A
  inserted before x [] = x ∷ []
  inserted before x (y ∷ l) = if before x y then x ∷ y ∷ l else y ∷ inserted before x l

  -- `order_by`: a sort that keeps the order of rows that compare equal.
  unfoldable pub ordered : (A → A → Bool) → List A → List A
  unfolding inserted
  ordered before [] = []
  ordered before (x ∷ l) = inserted before x (ordered before l)

module _ {A : Type 0} (P : A → Type 0) where
  -- Rows that are selected, ordered and cut to a page are rows of the table.
  pub All-rows : (p : A → Bool) (l : List A) → All (λ x. p x ≡ true → P x) l → All P (rows p l)
  unfolding rows
  All-rows p [] h = tt
  All-rows p (x ∷ l) h = elim (Bool-cases (p x)) [
    | inl e ↦ rw e (h.0 e, All-rows p l h.1)
    | inr e ↦ rw e (All-rows p l h.1)
  ]

  pub All-inserted :
      (before : A → A → Bool) (x : A) (l : List A) → P x → All P l → All P (inserted before x l)
  unfolding inserted
  All-inserted before x [] p h = (p, tt)
  All-inserted before x (y ∷ l) p h = elim (Bool-cases (before x y)) [
    | inl e ↦ rw e (p, h)
    | inr e ↦ rw e (h.0, All-inserted before x l p h.1)
  ]

  pub All-ordered : (before : A → A → Bool) (l : List A) → All P l → All P (ordered before l)
  unfolding ordered
  All-ordered before [] h = tt
  All-ordered before (x ∷ l) h =
      All-inserted before x (ordered before l) h.0 (All-ordered before l h.1)

  pub All-offset : (n : ℕ) (l : List A) → All P l → All P (offset n l)
  unfolding offset
  All-offset zero l h = h
  All-offset (suc n) [] h = tt
  All-offset (suc n) (x ∷ l) h = All-offset n l h.1

  pub All-limit : (n : ℕ) (l : List A) → All P l → All P (limit n l)
  unfolding limit
  All-limit zero l h = tt
  All-limit (suc n) [] h = tt
  All-limit (suc n) (x ∷ l) h = (h.0, All-limit n l h.1)

-- Every row is a row of the table.
pub All-of_IsIn :
    {A : Type 0} → (P : A → Type 0) (l : List A) → ((x : A) → IsIn x l → P x) → All P l
All-of_IsIn P [] f = tt
All-of_IsIn P (x ∷ l) f = (f x (inl refl), All-of_IsIn P l (λ y m. f y (inr m)))
