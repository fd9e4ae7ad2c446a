-- ===== src/Tables/Pages.antt =====
-- Pages of an ordered query: two consecutive pages are one longer page, and the rows of a page keep
-- the order.
use affiliate_platform.Prelude.{
  arith, refl, ap, zero, inr, suc, inl, All-weaken, ◌+◌, [], All, true, Bool-cases, false, ◌≡◌,
  ◌++◌, ◌∷◌, List, ℕ, Bool,
}
use affiliate_platform.Tables.Queries.{All-inserted, All-limit, offset, limit, inserted, ordered}

module _ {A : Type 0} where
  limit-nil : (n : ℕ) → limit {A = A} n [] ≡ []
  unfolding limit
  limit-nil zero = refl
  limit-nil (suc n) = refl

  offset-nil : (n : ℕ) → offset {A = A} n [] ≡ []
  unfolding offset
  offset-nil zero = refl
  offset-nil (suc n) = refl

  pub limit-append : (n m : ℕ) (l : List A) → limit n l ++ limit m (offset n l) ≡ limit (n + m) l
  unfolding limit offset
  limit-append zero m l = let e : 0 + m ≡ m = omega arith in rw e refl
  limit-append (suc n) m [] = let e : suc n + m ≡ suc (n + m) = omega arith in rw e (limit-nil m)
  limit-append (suc n) m (x ∷ l) =
      let e : suc n + m ≡ suc (n + m) = omega arith in rw e (ap (λ k. x ∷ k) (limit-append n m l))

  pub offset-offset : (n m : ℕ) (l : List A) → offset m (offset n l) ≡ offset (n + m) l
  unfolding offset
  offset-offset zero m l = let e : 0 + m ≡ m = omega arith in rw e refl
  offset-offset (suc n) m [] = let e : suc n + m ≡ suc (n + m) = omega arith in rw e (offset-nil m)
  offset-offset (suc n) m (x ∷ l) =
      let e : suc n + m ≡ suc (n + m) = omega arith in rw e (offset-offset n m l)

-- Each row stands before all later ones.
abbrev pub IsSorted : {A : Type 0} → (A → A → Bool) → List A → Type 0
IsSorted before [] = Unit
IsSorted before (x ∷ l) = All (λ y. before x y ≡ true) l × IsSorted before l

-- An order by a column.
pub record IsOrder (A : Type 0) (before : A → A → Bool) : Type 0 where
  pub connected : (x y : A) → before x y ≡ false → before y x ≡ true
  pub transitive : (x y z : A) → before x y ≡ true → before y z ≡ true → before x z ≡ true

module _ {A : Type 0} (before : A → A → Bool) (law : IsOrder A before) where
  All-after :
      (x y : A) (l : List A)
      → before x y ≡ true
      → All (λ z. before y z ≡ true) l
      → All (λ z. before x z ≡ true) l
  All-after x y l e h = All-weaken _ _ l (λ z k. law.transitive x y z e k) h

  inserted-IsSorted :
      (x : A) (l : List A) → IsSorted before l → IsSorted before (inserted before x l)
  unfolding inserted
  inserted-IsSorted x [] h = (tt, tt)
  inserted-IsSorted x (y ∷ l) h = elim (Bool-cases (before x y)) [
    | inl e ↦ rw e ((e, All-after x y l e h.0), h)
    | inr e ↦ rw e (
      All-inserted (λ z. before y z ≡ true) before x l (law.connected x y e) h.0,
      inserted-IsSorted x l h.1,
    )
  ]

  pub ordered-IsSorted : (l : List A) → IsSorted before (ordered before l)
  unfolding ordered
  ordered-IsSorted [] = tt
  ordered-IsSorted (x ∷ l) = inserted-IsSorted x (ordered before l) (ordered-IsSorted l)

  pub offset-IsSorted : (n : ℕ) (l : List A) → IsSorted before l → IsSorted before (offset n l)
  unfolding offset
  offset-IsSorted zero l h = h
  offset-IsSorted (suc n) [] h = tt
  offset-IsSorted (suc n) (x ∷ l) h = offset-IsSorted n l h.1

  pub limit-IsSorted : (n : ℕ) (l : List A) → IsSorted before l → IsSorted before (limit n l)
  unfolding limit
  limit-IsSorted zero l h = tt
  limit-IsSorted (suc n) [] h = tt
  limit-IsSorted (suc n) (x ∷ l) h =
      (All-limit (λ y. before x y ≡ true) n l h.0, limit-IsSorted n l h.1)
