-- ===== src/Links/Cleaning.antt =====
-- What `clean_link` (affiliate-reconciliation-backend/app/utils/link_processing.py) leaves of a link.
use affiliate_platform.Prelude.{
  ℕ, ◌≡◌, refl, Bool, true, false, not, ◌&&◌, ◌||◌, Option, none, some, [], ◌∷◌, ◌++◌, arith,
  if◌then◌else◌, Bool-cases, inl, inr, Text, take_while, drop_while, lower, codes, starts_with,
  same_text, rstrip, skip,
}
use mathlib.Core.List.{reverse, reverse_aux}
use affiliate_platform.Links.{
  Url, all_of, is_other, before, is_empty, is_scheme, is_scheme_char, is_netloc_char, has_text,
  uses_netloc, uses_params, without_params, parse_url, parse_rest, show_url, show_scheme,
  show_authority, split_scheme, split_netloc, with_slash, is_slash, keep, is_control_or_space,
  is_netloc, without_slashes, clean_link, cleaned, Outcome, ok, error, strip,
}
use affiliate_platform.Links.Spans.{all_of-append, all_of-weaken}

-- Neither a query nor a fragment begins here.
abbrev pub is_clean_char : ℕ → Bool
is_clean_char c = is_other b'?' c && is_other b'#' c

all_of-take_while : (p : ℕ → Bool) (t : Text) → all_of p (take_while p t) ≡ true
unfolding take_while
all_of-take_while p [] = refl
all_of-take_while p (c ∷ t) = ground (arith, all_of-take_while p t)

all_of-drop_while :
    (p q : ℕ → Bool) (t : Text) → all_of q t ≡ true → all_of q (drop_while p t) ≡ true
unfolding drop_while
all_of-drop_while p q [] e = refl
all_of-drop_while p q (c ∷ t) e =
    let rest : all_of q (drop_while p t) ≡ true = all_of-drop_while p q t (ground (arith, e)) in
    ground (arith, rest, e)

all_of-before : (q : ℕ → Bool) (d : ℕ) (t : Text) → all_of q t ≡ true → all_of q (before d t) ≡ true
unfolding before take_while
all_of-before q d [] e = refl
all_of-before q d (c ∷ t) e =
    let rest : all_of q (before d t) ≡ true = all_of-before q d t (ground (arith, e)) in
    ground (arith, rest, e)

all_of-reverse_aux :
    (p : ℕ → Bool) (t acc : Text) → all_of p (reverse_aux t acc) ≡ (all_of p t && all_of p acc)
all_of-reverse_aux p [] acc = refl
all_of-reverse_aux p (c ∷ t) acc = ground (arith, all_of-reverse_aux p t (c ∷ acc))

all_of-reverse : (p : ℕ → Bool) (t : Text) → all_of p t ≡ true → all_of p (reverse t) ≡ true
all_of-reverse p t e = rw (all_of-reverse_aux p t [], e)

all_of-rstrip : (p q : ℕ → Bool) (t : Text) → all_of q t ≡ true → all_of q (rstrip p t) ≡ true
unfolding rstrip
all_of-rstrip p q t e =
    all_of-reverse q (drop_while p (reverse t))
      (all_of-drop_while p q (reverse t) (all_of-reverse q t e))

all_of-without_params :
    (q : ℕ → Bool) (path r : Text)
    → all_of q path ≡ true
    → all_of q r ≡ true
    → all_of q (without_params path r) ≡ true
all_of-without_params q path [] e h = e
all_of-without_params q path (c ∷ r) e h = ground (arith, e, all_of-reverse q r (ground (arith, h)))

all_of-lower : (s : Text) → all_of is_scheme_char s ≡ true → all_of is_clean_char (lower s) ≡ true
all_of-lower [] e = refl
all_of-lower (c ∷ s) e =
    let rest : all_of is_clean_char (lower s) ≡ true = all_of-lower s (ground (arith, e)) in
    ground (arith, rest, e)

is_scheme-lower : (s : Text) → is_scheme s ≡ true → all_of is_clean_char (lower s) ≡ true
is_scheme-lower [] e = refl
is_scheme-lower (c ∷ s) e = all_of-lower (c ∷ s) (ground (arith, e))

-- The scheme that is split off is clean.
all_of-split_scheme : (t : Text) → all_of is_clean_char (split_scheme t).0 ≡ true
unfolding split_scheme
all_of-split_scheme t = ground (arith, is_scheme-lower (before b':' t))

-- So is the netloc.
all_of-split_netloc : (t : Text) → all_of is_clean_char (split_netloc t).0 ≡ true
unfolding split_netloc
all_of-split_netloc t = ground (
  arith,
  all_of-weaken is_netloc_char is_clean_char (take_while is_netloc_char (skip (codes "//") t))
      (λ c h. ground (arith, h)) (all_of-take_while is_netloc_char (skip (codes "//") t)),
)

-- The scheme, the netloc and the path have neither mark.
abbrev pub IsCleanUrl : Url → Type 0
IsCleanUrl u =
    (all_of is_clean_char u.scheme ≡ true)
    × (all_of is_clean_char u.netloc ≡ true)
    × (all_of is_clean_char u.path ≡ true)

all_of-both :
    (p q : ℕ → Bool) (t : Text)
    → all_of p t ≡ true
    → all_of q t ≡ true
    → all_of (λ c. p c && q c) t ≡ true
all_of-both p q [] e h = refl
all_of-both p q (c ∷ t) e h =
    let rest : all_of (λ c. p c && q c) t ≡ true =
      all_of-both p q t (ground (arith, e)) (ground (arith, h)) in
    ground (arith, rest, e, h)

all_of-path : (t : Text) → all_of is_clean_char (before b'?' (before b'#' t)) ≡ true
unfolding before
all_of-path t =
    all_of-both (is_other b'?') (is_other b'#') (before b'?' (before b'#' t))
      (all_of-take_while (is_other b'?') (before b'#' t))
      (all_of-before (is_other b'#') b'?' (before b'#' t) (all_of-take_while (is_other b'#') t))

all_of-if :
    (q : ℕ → Bool) (b : Bool) (s t : Text)
    → all_of q s ≡ true
    → all_of q t ≡ true
    → all_of q (if b then s else t) ≡ true
all_of-if q true s t e h = e
all_of-if q false s t e h = h

all_of-join :
    (q : ℕ → Bool) (s t : Text) → all_of q s ≡ true → all_of q t ≡ true → all_of q (s ++ t) ≡ true
all_of-join q s t e h = rw (all_of-append q s t, e, h)

-- What `urlparse` answers is clean, if it answers.
abbrev pub IsClean : Option Url → Type 0
IsClean none = Unit
IsClean (some u) = IsCleanUrl u

parse_rest-IsClean :
    (s n r : Text)
    → all_of is_clean_char s ≡ true
    → all_of is_clean_char n ≡ true
    → IsClean (parse_rest s (n, r))
unfolding parse_rest
parse_rest-IsClean s n r hs hn = elim (Bool-cases (is_netloc n)) [
  | inl h ↦
      let path = before b'?' (before b'#' r) in
      rw h (
        hs,
        hn,
        all_of-if is_clean_char (has_text s uses_params) (without_params path (reverse path)) path
            (all_of-without_params is_clean_char path (reverse path) (all_of-path r)
              (all_of-reverse is_clean_char path (all_of-path r)))
            (all_of-path r),
      )
  | inr h ↦ rw h tt
]

pub parse_url-IsClean : (t : Text) → IsClean (parse_url t)
unfolding parse_url
parse_url-IsClean t =
    let split = split_scheme (keep (drop_while is_control_or_space t)) in
    parse_rest-IsClean split.0 (split_netloc split.1).0 (split_netloc split.1).1
      (all_of-split_scheme (keep (drop_while is_control_or_space t))) (all_of-split_netloc split.1)

all_of-with_slash :
    (t : Text) → all_of is_clean_char t ≡ true → all_of is_clean_char (with_slash t) ≡ true
all_of-with_slash t e =
    all_of-if is_clean_char (is_empty t || starts_with (b'/' ∷ []) t) t (b'/' ∷ t) e e

all_of-show_authority :
    (s n p : Text)
    → all_of is_clean_char n ≡ true
    → all_of is_clean_char p ≡ true
    → all_of is_clean_char (show_authority s n p) ≡ true
all_of-show_authority s n p hn hp =
    all_of-if is_clean_char
      (not (is_empty n) || (has_text s uses_netloc && not (starts_with (codes "//") p)))
      (codes "//" ++ (n ++ with_slash p)) p
      (all_of-join is_clean_char n (with_slash p) hn (all_of-with_slash p hp)) hp

-- The text of a clean URL without a query and a fragment.
all_of-show_url :
    (u : Url)
    → IsCleanUrl u
    → all_of is_clean_char (show_url (record u { query = []; fragment = [] })) ≡ true
unfolding show_url
all_of-show_url u h =
    let shown = show_authority u.scheme u.netloc u.path in
    let e : all_of is_clean_char shown ≡ true =
      all_of-show_authority u.scheme u.netloc u.path h.1 h.2 in
    all_of-join is_clean_char (show_scheme u.scheme shown) []
      (all_of-if is_clean_char (is_empty u.scheme) shown (u.scheme ++ (b':' ∷ shown)) e
        (all_of-join is_clean_char u.scheme (b':' ∷ shown) h.0 e))
      refl

all_of-without_slashes :
    (t : Text) → all_of is_clean_char t ≡ true → all_of is_clean_char (without_slashes t) ≡ true
unfolding without_slashes
all_of-without_slashes t e =
    all_of-if is_clean_char (same_text t (codes "https://") || same_text t (codes "http://")) t
      (rstrip is_slash t) e (all_of-rstrip is_slash is_clean_char t e)

-- A link that was cleaned.
abbrev pub HasNoMarks : Outcome Text → Type 0
HasNoMarks (ok t) = all_of is_clean_char t ≡ true
HasNoMarks (error e) = Unit

cleaned-HasNoMarks : (o : Option Url) → IsClean o → HasNoMarks (cleaned o)
cleaned-HasNoMarks none h = tt
cleaned-HasNoMarks (some u) h =
    all_of-without_slashes (show_url (record u { query = []; fragment = [] })) (all_of-show_url u h)

-- No link that `clean_link` returns, whatever the user sent, has a question mark or a number sign.
pub clean_link-HasNoMarks : (url : Text) → HasNoMarks (clean_link url)
unfolding clean_link
clean_link-HasNoMarks url = elim (Bool-cases (is_empty (strip url))) [
  | inl e ↦ rw e tt
  | inr e ↦ rw e (cleaned-HasNoMarks (parse_url (strip url)) (parse_url-IsClean (strip url)))
]
