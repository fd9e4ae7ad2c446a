-- ===== src/JobQueue/Heap.antt =====
-- Python's `heapq` as the program uses it: `heappush` adds an entry, `heappop` takes out the least
-- one, and nothing but the least entry and the number of entries is ever looked at. A heap is the
-- list of its entries, the least first.
use mathlib.Core.List.{Perm}
use mathlib.Core.List.Perm
use affiliate_platform.Prelude.{
  suc, ◌≡◌, refl, inl, inr, Bool, true, false, List, [], ◌∷◌, arith, if◌then◌else◌, Bool-cases,
  length, All, All-weaken,
}

module _ {A : Type 0} (before : A → A → Bool) where
  unfoldable pub heappush : A → List A → List A
  heappush x [] = x ∷ []
  heappush x (y ∷ ys) = if before x y then x ∷ y ∷ ys else y ∷ heappush x ys

  -- The least entry comes first, and so on down.
  abbrev pub IsSorted : List A → Type 0
  IsSorted [] = Unit
  IsSorted (x ∷ xs) = All (λ y. before x y ≡ true) xs × IsSorted xs

  -- What the comparison of entries must satisfy.
  pub record IsOrder : Type 0 where
    pub transitive : (a b c : A) → before a b ≡ true → before b c ≡ true → before a c ≡ true
    pub total : (a b : A) → before a b ≡ false → before b a ≡ true

  pub All-heappush : (P : A → Type 0) (x : A) (l : List A) → P x → All P l → All P (heappush x l)
  unfolding heappush
  All-heappush P x [] p h = (p, tt)
  All-heappush P x (y ∷ ys) p h = elim (Bool-cases (before x y)) [
    | inl e ↦ rw e (p, h)
    | inr e ↦ rw e (h.0, All-heappush P x ys p h.1)
  ]

  pub heappush-IsSorted : (x : A) (l : List A) → IsOrder → IsSorted l → IsSorted (heappush x l)
  unfolding heappush
  heappush-IsSorted x [] o h = (tt, tt)
  heappush-IsSorted x (y ∷ ys) o h = elim (Bool-cases (before x y)) [
    | inl e ↦ rw e ((e, All-weaken _ _ ys (λ z q. o.transitive x y z e q) h.0), h)
    | inr e ↦ rw e (
      All-heappush (λ z. before y z ≡ true) x ys (o.total x y e) h.0,
      heappush-IsSorted x ys o h.1,
    )
  ]

  pub heappush-perm : (x : A) (l : List A) → Perm (heappush x l) (x ∷ l)
  unfolding heappush
  heappush-perm x [] = Perm.refl (x ∷ [])
  heappush-perm x (y ∷ ys) = elim (Bool-cases (before x y)) [
    | inl e ↦ rw e (Perm.refl (x ∷ y ∷ ys))
    | inr e ↦ rw e (Perm.trans (Perm.cons y (heappush-perm x ys)) (Perm.swap x y ys))
  ]

  pub length-heappush : (x : A) (l : List A) → length (heappush x l) ≡ suc (length l)
  unfolding heappush
  length-heappush x [] = refl
  length-heappush x (y ∷ ys) = ground (arith, length-heappush x ys)
