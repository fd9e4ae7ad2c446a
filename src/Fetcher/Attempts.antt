-- ===== src/Fetcher/Attempts.antt =====
-- How many attempts a fetch makes, and what comes of them
-- (affiliate-reconciliation-backend/app/services/platform_fetcher.py).
use mathlib.Core.Path.{subst}
use affiliate_platform.Prelude.{
  ℕ, zero, suc, ◌+◌, ◌≤◌, String, ◌≡◌, refl, ◌⊎◌, inl, inr, Bool, true, false, ◌||◌, none, some,
  arith, ◌==◌, Bool-cases,
}
use affiliate_platform.Breaker.{Breakers, allow_call}
use affiliate_platform.Fetcher.{
  Call, data_of, failed, denied, call_failed, Fetched, missing_of, is_auth_error, is_final,
  succeeded, gave_up, limited_after, record_call, outcome_of, fetch_loop, fetch,
}

module _ (calls : ℕ → Call) where
  -- The k calls after the first a ones failed in a way that is tried again.
  abbrev pub Retried : ℕ → ℕ → Type 0
  Retried a zero = Unit
  Retried a (suc k) = (is_final (calls (a + 1)) ≡ false) × Retried (a + 1) k

-- The outcome is that of the call that ended the fetch.
abbrev pub EndMeans : Call → Bool → Fetched → Type 0
EndMeans (data_of r) exhausted out =
    (out.platform_metrics ≡ some r) × (out.partial_missing ≡ missing_of r) × (out.cause ≡ none)
EndMeans (failed code message) exhausted out =
    (out.platform_metrics ≡ none)
    × (out.cause ≡ some (call_failed code message))
    × ((is_auth_error code || exhausted) ≡ true)

-- A fetch after a attempts with l further ones: it makes k of the further ones, all before the last
-- call failed in a way that is tried again, and the last one decides. A failure decides only if it
-- was refused for its credentials or no further attempt was left.
abbrev pub LoopMeans : (ℕ → Call) → ℕ → ℕ → Fetched → Type 0
LoopMeans calls a l out =
    (k : ℕ) × (k ≤ l)
    × (out.attempts ≡ a + k + 1)
    × Retried calls a k
    × EndMeans (calls (a + k + 1)) (k == l) out

end_step :
    (c : Call) (n : ℕ) (limited exhausted : Bool)
    → (is_final c || exhausted) ≡ true
    → EndMeans c exhausted (outcome_of c n limited)
unfolding outcome_of succeeded gave_up
end_step (data_of r) n limited exhausted h = (refl, refl, refl)
end_step (failed code message) n limited exhausted h = (refl, refl, h)

outcome_of-attempts : (c : Call) (n : ℕ) (limited : Bool) → (outcome_of c n limited).attempts ≡ n
unfolding outcome_of succeeded gave_up
outcome_of-attempts (data_of r) n limited = refl
outcome_of-attempts (failed code message) n limited = refl

module _ (calls : ℕ → Call) (clock : ℕ → ℕ) (platform : String) where
  pub fetch_loop-LoopMeans :
      (l a : ℕ) (limited : Bool) (bs : Breakers)
      → LoopMeans calls a l (fetch_loop calls clock platform l a limited bs).1
  unfolding fetch_loop
  fetch_loop-LoopMeans zero a limited bs =
      let c = calls (a + 1) in
      let lim = limited_after limited c in
      (
        0,
        omega arith,
        omega (arith, outcome_of-attempts c (a + 1) lim),
        tt,
        subst (λ n. EndMeans (calls n) true (outcome_of c (a + 1) lim)) (omega arith)
            (end_step c (a + 1) lim true (ground arith)),
      )
  fetch_loop-LoopMeans (suc l) a limited bs =
      let c = calls (a + 1) in
      let lim = limited_after limited c in
      elim (Bool-cases (is_final c)) [
        | inl e ↦ rw e (
          0,
          omega arith,
          omega (arith, outcome_of-attempts c (a + 1) lim),
          tt,
          subst (λ n. EndMeans (calls n) (0 == suc l) (outcome_of c (a + 1) lim)) (omega arith)
              (end_step c (a + 1) lim (0 == suc l) (ground (arith, e))),
        )
        | inr e ↦
            let bs' = record_call platform (clock (a + 1)) c bs in
            let out = (fetch_loop calls clock platform l (a + 1) lim bs').1 in
            let (k, le, count, retried, ended) = fetch_loop-LoopMeans l (a + 1) lim bs' in
            let same_end : (k == l) ≡ (suc k == suc l) = ground arith in
            rw e (
              suc k,
              omega arith,
              omega (arith, count),
              (e, retried),
              subst (λ n. EndMeans (calls n) (suc k == suc l) out) (omega arith)
                  (subst (λ b. EndMeans (calls (a + 1 + k + 1)) b out) same_end ended),
            )
      ]

  -- A fetch that the breaker denies makes no call. Any other one makes at least one call and at
  -- most the number allowed; all calls but the last failed in a way that is tried again; the
  -- outcome is that of the last one, which succeeded, was refused for its credentials, or was the
  -- last one allowed.
  pub fetch_outcome :
      (further : ℕ) (bs : Breakers)
      → let (_, allowed, reason) = allow_call bs (clock 0) platform in
        let out = (fetch calls clock platform further bs).1 in
        ((allowed ≡ false) × (out ≡ gave_up 0 (denied reason) false))
        ⊎ ((allowed ≡ true) × LoopMeans calls 0 further out)
  unfolding fetch
  fetch_outcome further bs = elim (Bool-cases (allow_call bs (clock 0) platform).1) [
    | inl e ↦ rw e (inr (refl, fetch_loop-LoopMeans further 0 false _))
    | inr e ↦ rw e (inl (refl, refl))
  ]
