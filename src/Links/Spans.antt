-- ===== src/Links/Spans.antt =====
-- How the pieces of a text that urllib.parse splits at a character are found again.
use affiliate_platform.Prelude.{
  ℕ, ◌≡◌, refl, Bool, true, false, not, ◌&&◌, [], ◌∷◌, ◌++◌, arith, Text, take_while, drop_while,
  contains,
}
use affiliate_platform.Links.Urls.{all_of, is_other, keep, is_kept}

pub all_of-append : (p : ℕ → Bool) (s t : Text) → all_of p (s ++ t) ≡ (all_of p s && all_of p t)
all_of-append p [] t = refl
all_of-append p (c ∷ s) t = ground (arith, all_of-append p s t)

pub all_of-weaken :
    (p q : ℕ → Bool) (s : Text)
    → ((c : ℕ) → p c ≡ true → q c ≡ true)
    → all_of p s ≡ true
    → all_of q s ≡ true
all_of-weaken p q [] h e = refl
all_of-weaken p q (c ∷ s) h e =
    let rest : all_of q s ≡ true = all_of-weaken p q s h (ground (arith, e)) in
    ground (arith, rest, h c)

-- A text that is empty or begins with a character that fails a test.
abbrev pub stops : (ℕ → Bool) → Text → Bool
stops p [] = true
stops p (c ∷ t) = not (p c)

pub take_while-append :
    (p : ℕ → Bool) (s t : Text) → all_of p s ≡ true → stops p t ≡ true → take_while p (s ++ t) ≡ s
unfolding take_while
take_while-append p [] [] e h = refl
take_while-append p [] (c ∷ t) e h = ground (arith, h)
take_while-append p (c ∷ s) t e h =
    let rest : take_while p (s ++ t) ≡ s = take_while-append p s t (ground (arith, e)) h in
    ground (arith, rest, e)

pub drop_while-append :
    (p : ℕ → Bool) (s t : Text) → all_of p s ≡ true → stops p t ≡ true → drop_while p (s ++ t) ≡ t
unfolding drop_while
drop_while-append p [] [] e h = refl
drop_while-append p [] (c ∷ t) e h = ground (arith, h)
drop_while-append p (c ∷ s) t e h =
    let rest : drop_while p (s ++ t) ≡ t = drop_while-append p s t (ground (arith, e)) h in
    ground (arith, rest, e)

pub keep-all_of : (s : Text) → all_of is_kept s ≡ true → keep s ≡ s
unfolding keep
keep-all_of [] e = refl
keep-all_of (c ∷ s) e =
    let rest : keep s ≡ s = keep-all_of s (ground (arith, e)) in ground (arith, rest, e)

-- A character is found where it stands, and not in a text of other characters.
pub contains-append : (d : ℕ) (s t : Text) → contains (d ∷ []) (s ++ (d ∷ t)) ≡ true
unfolding contains
contains-append d [] t = ground arith
contains-append d (c ∷ s) t = ground (arith, contains-append d s t)

pub contains-all_of :
    (d : ℕ) (s : Text) → all_of (is_other d) s ≡ true → contains (d ∷ []) s ≡ false
unfolding contains
contains-all_of d [] e = refl
contains-all_of d (c ∷ s) e =
    let rest : contains (d ∷ []) s ≡ false = contains-all_of d s (ground (arith, e)) in
    ground (arith, rest, e)
