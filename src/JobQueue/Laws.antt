-- ===== src/JobQueue/Laws.antt =====
-- Facts about the two heaps of the queue that its theorems share
-- (affiliate-reconciliation-backend/app/jobs/queue.py).
use mathlib.Core.List.{Perm, perm_middle}
use mathlib.Core.List.Perm
use affiliate_platform.Prelude.{
  ℕ, ◌+◌, ◌≤◌, ◌<◌, ◌≡◌, ◌≢◌, refl, ap, inl, inr, true, List, [], ◌∷◌, ◌++◌, arith, leb, leb→le,
  not_leb, Bool-cases, length, All, All-weaken,
}
use affiliate_platform.JobQueue.{
  false, QueueItem, ready_before, scheduled_before, promote_items, heappush, IsSorted, IsOrder,
  All-heappush, heappush-IsSorted, heappush-perm, length-heappush,
}

module _ {J : Type 0} where
  pub ready_order : IsOrder (ready_before {J = J})
  unfolding ready_before
  ready_order = record { transitive = λ a b c h k. ground arith; total = λ a b h. ground arith }

  pub scheduled_order : IsOrder (scheduled_before {J = J})
  unfolding scheduled_before
  scheduled_order = record { transitive = λ a b c h k. ground arith; total = λ a b h. ground arith }

  pub promote-length :
      (now : ℕ) (scheduled ready : List (QueueItem J))
      → let (s, r) = promote_items now scheduled ready in
        length r + length s ≡ length ready + length scheduled
  unfolding promote_items
  promote-length now [] ready = omega arith
  promote-length now (i ∷ rest) ready = ground (
    arith,
    length-heappush ready_before i ready,
    promote-length now rest (heappush ready_before i ready),
  )

  -- What holds of all items is kept, and what holds of the ready ones too if the items that are due
  -- satisfy it.
  pub promote-All :
      (P : QueueItem J → Type 0) (now : ℕ) (scheduled ready : List (QueueItem J))
      → All P scheduled
      → All P ready
      → let (s, r) = promote_items now scheduled ready in All P s × All P r
  unfolding promote_items
  promote-All P now [] ready hs hr = (tt, hr)
  promote-All P now (i ∷ rest) ready hs hr = elim (Bool-cases (leb i.ready_at now)) [
    | inl e ↦ rw e (
        promote-All P now rest (heappush ready_before i ready) hs.1
          (All-heappush ready_before P i ready hs.0 hr))
    | inr e ↦ rw e (hs, hr)
  ]

  pub promote-IsSorted :
      (now : ℕ) (scheduled ready : List (QueueItem J))
      → IsSorted scheduled_before scheduled
      → IsSorted ready_before ready
      → let (s, r) = promote_items now scheduled ready in
        IsSorted scheduled_before s × IsSorted ready_before r
  unfolding promote_items
  promote-IsSorted now [] ready hs hr = (tt, hr)
  promote-IsSorted now (i ∷ rest) ready hs hr = elim (Bool-cases (leb i.ready_at now)) [
    | inl e ↦ rw e (
        promote-IsSorted now rest (heappush ready_before i ready) hs.1
          (heappush-IsSorted ready_before i ready ready_order hr))
    | inr e ↦ rw e (hs, hr)
  ]

  pub scheduled_before-ready_at :
      (a b : QueueItem J) → scheduled_before a b ≡ true → a.ready_at ≤ b.ready_at
  unfolding scheduled_before
  scheduled_before-ready_at a b h = ground arith

  -- Nothing that is due stays behind.
  pub promote-later :
      (now : ℕ) (scheduled ready : List (QueueItem J))
      → IsSorted scheduled_before scheduled
      → All (λ i. now < i.ready_at) (promote_items now scheduled ready).0
  unfolding promote_items
  promote-later now [] ready hs = tt
  promote-later now (i ∷ rest) ready hs = elim (Bool-cases (leb i.ready_at now)) [
    | inl e ↦ rw e (promote-later now rest (heappush ready_before i ready) hs.1)
    | inr e ↦ rw e (
      ground arith,
      All-weaken _ _ rest
          (λ j before.
            omega (arith, scheduled_before-ready_at i j before, not_leb i.ready_at now e))
          hs.0,
    )
  ]

  -- Only what is due is made ready.
  pub promote-due :
      (P : QueueItem J → Type 0) (now : ℕ) (scheduled ready : List (QueueItem J))
      → ((i : QueueItem J) → i.ready_at ≤ now → P i)
      → All P ready
      → All P (promote_items now scheduled ready).1
  unfolding promote_items
  promote-due P now [] ready due hr = hr
  promote-due P now (i ∷ rest) ready due hr = elim (Bool-cases (leb i.ready_at now)) [
    | inl e ↦ rw e (
        promote-due P now rest (heappush ready_before i ready) due
          (All-heappush ready_before P i ready (due i (leb→le i.ready_at now e)) hr))
    | inr e ↦ rw e hr
  ]

  -- A promotion moves items and loses none.
  pub promote-perm :
      (now : ℕ) (scheduled ready : List (QueueItem J))
      → let (s, r) = promote_items now scheduled ready in Perm (r ++ s) (ready ++ scheduled)
  unfolding promote_items
  promote-perm now [] ready = Perm.refl (ready ++ [])
  promote-perm now (i ∷ rest) ready = elim (Bool-cases (leb i.ready_at now)) [
    | inl e ↦ rw e (
        Perm.trans (promote-perm now rest (heappush ready_before i ready)) (
          Perm.trans (Perm.append (heappush-perm ready_before i ready) (Perm.refl rest))
            (Perm.symm (perm_middle ready rest))))
    | inr e ↦ rw e (Perm.refl (ready ++ i ∷ rest))
  ]

  -- Where nothing is due a promotion changes nothing, and only there no item is ready after it.
  pub promote_nothing :
      (now : ℕ) (scheduled ready : List (QueueItem J))
      → All (λ i. now < i.ready_at) scheduled
      → promote_items now scheduled ready ≡ (scheduled, ready)
  unfolding promote_items
  promote_nothing now [] ready h = refl
  promote_nothing now (i ∷ rest) ready h =
      let e : leb i.ready_at now ≡ false = ground (arith, h.0) in rw e

  length-heappush_ne : (i : QueueItem J) (l : List (QueueItem J)) → heappush ready_before i l ≢ []
  length-heappush_ne i l e = absurd (omega (arith, length-heappush ready_before i l, ap length e))

  pub promote-nil :
      (now : ℕ) (scheduled ready : List (QueueItem J))
      → IsSorted scheduled_before scheduled
      → (promote_items now scheduled ready).1 ≡ []
      → (ready ≡ []) × All (λ i. now < i.ready_at) scheduled
  unfolding promote_items
  promote-nil now [] ready hs e = (e, tt)
  promote-nil now (i ∷ rest) ready hs e = elim (Bool-cases (leb i.ready_at now)) [
    | inl due ↦
        let e' : (promote_items now rest (heappush ready_before i ready)).1 ≡ [] = rw due at e in
        absurd (
          length-heappush_ne i ready
            (promote-nil now rest (heappush ready_before i ready) hs.1 e').0)
    | inr later ↦
        let e' : ready ≡ [] = rw later at e in
        let behind : All (λ j. now < j.ready_at) (i ∷ rest) =
          rw later at (promote-later now (i ∷ rest) ready hs) in
        (e', behind)
  ]
