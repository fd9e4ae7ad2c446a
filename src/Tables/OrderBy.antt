-- ===== src/Tables/OrderBy.antt =====
-- What a database promises of an ordered query: the rows that are selected, each as often as it is,
-- in the order of a column. Rows that compare equal come in any order, which may differ from one
-- query to the next.
use mathlib.Core.List.{Permᴰ}
use mathlib.Core.List.Permᴰ
use mathlib.Core.Path.{subst}
use affiliate_platform.Prelude.{
  ◌≡◌, refl, sym, ◌∙◌, inl, inr, Bool, true, false, ◌&&◌, List, [], ◌∷◌, All, arith, Bool-cases,
}
use affiliate_platform.Tables.Queries.{IsIn, All-IsIn, inserted, ordered}
use affiliate_platform.Tables.Pages.{IsOrder, IsSorted, ordered-IsSorted}

-- Rows of which no two compare equal.
abbrev pub IsDistinct : {A : Type 0} → (A → A → Bool) → List A → Type 0
IsDistinct before [] = Unit
IsDistinct before (x ∷ l) = All (λ y. (before x y && before y x) ≡ false) l × IsDistinct before l

pub record IsOrderBy (A : Type 0) (before : A → A → Bool) (order : List A → List A) : Type 0 where
  pub rearranges : (l : List A) → Permᴰ (order l) l
  pub sorted : (l : List A) → IsSorted before (order l)

module _ {A : Type 0} where
  IsIn-perm : (x : A) {l m : List A} → Permᴰ l m → IsIn x l → IsIn x m
  IsIn-perm x Permᴰ.nil i = i
  IsIn-perm x (Permᴰ.cons e p) (inl i) = inl (i ∙ e)
  IsIn-perm x (Permᴰ.cons e p) (inr i) = inr (IsIn-perm x p i)
  IsIn-perm x (Permᴰ.swap e f) (inl i) = inr (inl (i ∙ e))
  IsIn-perm x (Permᴰ.swap e f) (inr (inl i)) = inl (i ∙ f)
  IsIn-perm x (Permᴰ.swap e f) (inr (inr i)) = inr (inr i)
  IsIn-perm x (Permᴰ.trans p q) i = IsIn-perm x q (IsIn-perm x p i)

  All-perm : (P : A → Type 0) {l m : List A} → Permᴰ l m → All P l → All P m
  All-perm P Permᴰ.nil h = h
  All-perm P (Permᴰ.cons e p) h = (rw (← e) h.0, All-perm P p h.1)
  All-perm P (Permᴰ.swap e f) h = (rw (← f) h.1.0, (rw (← e) h.0, h.1.1))
  All-perm P (Permᴰ.trans p q) h = All-perm P q (All-perm P p h)

  module _ (before : A → A → Bool) where
    swapped : (a b : A) (l : List A) → IsDistinct before (a ∷ b ∷ l) → IsDistinct before (b ∷ a ∷ l)
    swapped a b l h =
        let k : (before a b && before b a) ≡ false = h.0.0 in
        ((ground (arith, k), h.1.0), (h.0.1, h.1.1))

    IsDistinct-perm : {l m : List A} → Permᴰ l m → IsDistinct before l → IsDistinct before m
    IsDistinct-perm Permᴰ.nil h = h
    IsDistinct-perm (Permᴰ.cons e p) h = (rw (← e) (All-perm _ p h.0), IsDistinct-perm p h.1)
    IsDistinct-perm (Permᴰ.swap {a = a} {b = b} {b' = b'} {l = l} e f) h =
        subst (λ u. IsDistinct before (u ∷ b' ∷ l)) f
          (subst (λ v. IsDistinct before (b ∷ v ∷ l)) e (swapped a b l h))
    IsDistinct-perm (Permᴰ.trans p q) h = IsDistinct-perm q (IsDistinct-perm p h)

    -- Two sorted lists of distinct rows with the same members are the same.
    same_head :
        (x y : A) (l m : List A)
        → IsSorted before (x ∷ l)
        → IsSorted before (y ∷ m)
        → IsDistinct before (x ∷ l)
        → IsIn x (y ∷ m)
        → IsIn y (x ∷ l)
        → x ≡ y
    same_head x y l m s t d (inl e) j = e
    same_head x y l m s t d (inr i) (inl e) = sym e
    same_head x y l m s t d (inr i) (inr j) =
        let below = All-IsIn (λ z. before y z ≡ true) x m t.0 i in
        let above = All-IsIn (λ z. before x z ≡ true) y l s.0 j in
        let apart = All-IsIn (λ z. (before x z && before z x) ≡ false) y l d.0 j in
        absurd (ground (arith, below, above, apart))

    -- A member of the tail is not the head.
    not_head :
        (x z : A) (l : List A)
        → IsSorted before (x ∷ l)
        → IsDistinct before (x ∷ l)
        → IsIn z l
        → z ≡ x
        → ⊥
    not_head x z l s d i e =
        let above = All-IsIn (λ y. before x y ≡ true) z l s.0 i in
        let apart = All-IsIn (λ y. (before x y && before y x) ≡ false) z l d.0 i in
        let k : before x x ≡ true = rw e at above in
        let n : (before x x && before x x) ≡ false = rw e at apart in absurd (ground (arith, k, n))

    IsIn-tail :
        (x y z : A) (l m : List A)
        → IsSorted before (x ∷ l)
        → IsDistinct before (x ∷ l)
        → x ≡ y
        → IsIn z l
        → IsIn z (y ∷ m)
        → IsIn z m
    IsIn-tail x y z l m s d e i (inl f) = absurd (not_head x z l s d i (f ∙ sym e))
    IsIn-tail x y z l m s d e i (inr j) = j

    sorted_unique :
        (l m : List A)
        → IsSorted before l
        → IsSorted before m
        → IsDistinct before l
        → IsDistinct before m
        → ((x : A) → IsIn x l → IsIn x m)
        → ((x : A) → IsIn x m → IsIn x l)
        → l ≡ m
    sorted_unique [] [] s t d e f g = refl
    sorted_unique [] (y ∷ m) s t d e f g = absurd (g y (inl refl))
    sorted_unique (x ∷ l) [] s t d e f g = absurd (f x (inl refl))
    sorted_unique (x ∷ l) (y ∷ m) s t d e f g =
        let h = same_head x y l m s t d (f x (inl refl)) (g y (inl refl)) in
        let tails =
          sorted_unique l m s.1 t.1 d.1 e.1 (λ z i. IsIn-tail x y z l m s d h i (f z (inr i)))
            (λ z i. IsIn-tail y x z m l t e (sym h) i (g z (inr i))) in
        rw (h, tails) refl

    -- Two queries that order distinct rows answer the same.
    pub order_unique :
        (order order' : List A → List A) (l : List A)
        → IsOrderBy A before order
        → IsOrderBy A before order'
        → IsDistinct before l
        → order l ≡ order' l
    order_unique order order' l o o' d =
        let p = o.rearranges l in
        let q = o'.rearranges l in
        sorted_unique (order l) (order' l) (o.sorted l) (o'.sorted l)
          (IsDistinct-perm (Permᴰ.symm p) d) (IsDistinct-perm (Permᴰ.symm q) d)
          (λ x i. IsIn-perm x (Permᴰ.symm q) (IsIn-perm x p i))
          (λ x i. IsIn-perm x (Permᴰ.symm p) (IsIn-perm x q i))

    pub All-order :
        (P : A → Type 0) (order : List A → List A) (l : List A)
        → IsOrderBy A before order
        → All P l
        → All P (order l)
    All-order P order l o h = All-perm P (Permᴰ.symm (o.rearranges l)) h

    inserted-perm : (x : A) (l : List A) → Permᴰ (inserted before x l) (x ∷ l)
    unfolding inserted
    inserted-perm x [] = Permᴰ.refl (x ∷ [])
    inserted-perm x (y ∷ l) = elim (Bool-cases (before x y)) [
      | inl e ↦ rw e (Permᴰ.refl (x ∷ y ∷ l))
      | inr e ↦ rw e (Permᴰ.trans (Permᴰ.cons refl (inserted-perm x l)) (Permᴰ.swap refl refl))
    ]

    ordered-perm : (l : List A) → Permᴰ (ordered before l) l
    unfolding ordered
    ordered-perm [] = Permᴰ.nil
    ordered-perm (x ∷ l) =
        Permᴰ.trans (inserted-perm x (ordered before l)) (Permᴰ.cons refl (ordered-perm l))

    -- The sort that keeps the order of rows that compare equal is one such order.
    pub ordered-IsOrderBy : IsOrder A before → IsOrderBy A before (ordered before)
    ordered-IsOrderBy law = record {
      rearranges = ordered-perm;
      sorted = ordered-IsSorted before law;
    }
