-- ===== src/Links/RoundTrip.antt =====
-- Reading a URL back that was written (affiliate-reconciliation-backend/app/utils/link_processing.py
-- on urllib.parse), and what `clean_link` makes of it.
use affiliate_platform.Prelude.{
  drop_while, if◌then◌else◌, Bool-cases, ◌==◌, inl, inr, ℕ, ◌≡◌, refl, Bool, true, false, ◌&&◌, [],
  ◌∷◌, ◌++◌, arith, Text, lower, codes,
}
use affiliate_platform.Links.{
  has_text, uses_params, is_control_or_space, parse_url, some, show_url, show_authority, parse_rest,
  is_netloc, show_scheme, Url, all_of, is_other, before, after, is_empty, is_kept, is_scheme,
  is_scheme_char, is_netloc_char, without_params, after_mark, split_scheme, split_netloc,
  with_slash,
}
use mathlib.Core.List.{append_assoc, reverse}
use affiliate_platform.Links.Spans.{
  keep-all_of, all_of-append, contains-all_of, all_of-weaken, stops, take_while-append,
  drop_while-append, contains-append,
}

-- The characters of the parts of a URL that is written as it is read.
abbrev pub is_host_char : ℕ → Bool
is_host_char c = is_kept c && (is_netloc_char c && (is_other b'[' c && is_other b']' c))

abbrev pub is_path_char : ℕ → Bool
is_path_char c = is_kept c && (is_other b'?' c && is_other b'#' c)

abbrev pub is_query_char : ℕ → Bool
is_query_char c = is_kept c && is_other b'#' c

-- A URL with a scheme in lower case, a netloc, and a path that is empty or begins with a slash and
-- that empty parameters do not end.
abbrev pub IsUrl : Url → Type 0
IsUrl u =
    ((is_scheme u.scheme ≡ true) × (lower u.scheme ≡ u.scheme))
    × ((all_of is_host_char u.netloc ≡ true) × (is_empty u.netloc ≡ false))
    × ((all_of is_path_char u.path ≡ true)
        × (with_slash u.path ≡ u.path)
        × (without_params u.path (reverse u.path) ≡ u.path))
    × ((all_of is_query_char u.query ≡ true) × (all_of is_kept u.fragment ≡ true))

is_scheme-all_of : (s : Text) → is_scheme s ≡ true → all_of is_scheme_char s ≡ true
is_scheme-all_of [] e = absurd (cc)
is_scheme-all_of (c ∷ s) e = ground (arith, e)

split_scheme-append :
    (s r : Text) → is_scheme s ≡ true → lower s ≡ s → split_scheme (s ++ (b':' ∷ r)) ≡ (s, r)
unfolding split_scheme before after
split_scheme-append s r e l =
    let plain : all_of (is_other b':') s ≡ true =
      all_of-weaken is_scheme_char (is_other b':') s (λ c h. ground (arith, h))
        (is_scheme-all_of s e) in
    rw (
      contains-append b':' s r,
      take_while-append (is_other b':') s (b':' ∷ r) plain refl,
      drop_while-append (is_other b':') s (b':' ∷ r) plain refl,
      e,
      l,
    )

split_netloc-append :
    (n r : Text)
    → all_of is_netloc_char n ≡ true
    → stops is_netloc_char r ≡ true
    → split_netloc (codes "//" ++ (n ++ r)) ≡ (n, r)
unfolding split_netloc
split_netloc-append n r e h =
    rw (take_while-append is_netloc_char n r e h, drop_while-append is_netloc_char n r e h)

before-append :
    (d : ℕ) (s t : Text) → all_of (is_other d) s ≡ true → before d (s ++ after_mark d t) ≡ s
unfolding before
before-append d s [] e = take_while-append (is_other d) s [] e refl
before-append d s (c ∷ t) e = take_while-append (is_other d) s (d ∷ c ∷ t) e (ground arith)

after-append :
    (d : ℕ) (s t : Text) → all_of (is_other d) s ≡ true → after d (s ++ after_mark d t) ≡ t
unfolding after
after-append d s [] e = rw (drop_while-append (is_other d) s [] e refl) refl
after-append d s (c ∷ t) e =
    rw (drop_while-append (is_other d) s (d ∷ c ∷ t) e (ground arith)) (ground arith)

all_of-after_mark :
    (p : ℕ → Bool) (d : ℕ) (t : Text)
    → p d ≡ true
    → all_of p t ≡ true
    → all_of p (after_mark d t) ≡ true
all_of-after_mark p d [] h e = refl
all_of-after_mark p d (c ∷ t) h e = ground (arith, h, e)

-- The text of a URL, with the parts in the order in which they are split off again.
abbrev pub spelled : Text → Text → Text → Text → Text → Text
spelled s n p q f =
    s ++ (b':' ∷ (codes "//" ++ (n ++ ((p ++ after_mark b'?' q) ++ after_mark b'#' f))))

spelled_assoc :
    (s n p q f : Text)
    → (s ++ (b':' ∷ (codes "//" ++ (n ++ p)))) ++ (q ++ f)
      ≡ s ++ (b':' ∷ (codes "//" ++ (n ++ ((p ++ q) ++ f))))
spelled_assoc s n p q f = rw (
  append_assoc s (b':' ∷ (codes "//" ++ (n ++ p))) (q ++ f),
  append_assoc n p (q ++ f),
  append_assoc p q f,
)

show_scheme-nonempty : (s t : Text) → is_scheme s ≡ true → show_scheme s t ≡ s ++ (b':' ∷ t)
show_scheme-nonempty [] t e = absurd (cc)
show_scheme-nonempty (c ∷ s) t e = refl

show_authority-nonempty :
    (s n p : Text)
    → is_empty n ≡ false
    → with_slash p ≡ p
    → show_authority s n p ≡ codes "//" ++ (n ++ p)
show_authority-nonempty s n p e h = rw (e, h)

show_url-spelled :
    (u : Url) → IsUrl u → show_url u ≡ spelled u.scheme u.netloc u.path u.query u.fragment
unfolding show_url
show_url-spelled u h =
    rw
      (
        show_authority-nonempty u.scheme u.netloc u.path h.1.1 h.2.1,
        show_scheme-nonempty u.scheme (codes "//" ++ (u.netloc ++ u.path)) h.0.0,
      )
      (spelled_assoc u.scheme u.netloc u.path (after_mark b'?' u.query)
        (after_mark b'#' u.fragment))

if-same : (b : Bool) (t : Text) → (if b then t else t) ≡ t
if-same true t = refl
if-same false t = refl

is_netloc-all_of : (n : Text) → all_of is_host_char n ≡ true → is_netloc n ≡ true
unfolding is_netloc
is_netloc-all_of n e = rw (
  contains-all_of b'[' n
      (all_of-weaken is_host_char (is_other b'[') n (λ c h. ground (arith, h)) e),
  contains-all_of b']' n
      (all_of-weaken is_host_char (is_other b']') n (λ c h. ground (arith, h)) e),
)

parse_rest-spelled :
    (u : Url)
    → IsUrl u
    → parse_rest u.scheme
        (u.netloc, (u.path ++ after_mark b'?' u.query) ++ after_mark b'#' u.fragment)
      ≡ some u
unfolding parse_rest
parse_rest-spelled u h =
    let path_query : all_of (is_other b'#') (u.path ++ after_mark b'?' u.query) ≡ true = rw (
      all_of-append (is_other b'#') u.path (after_mark b'?' u.query),
      all_of-weaken is_path_char (is_other b'#') u.path (λ c e. ground (arith, e)) h.2.0,
      all_of-after_mark (is_other b'#') b'?' u.query refl
          (all_of-weaken is_query_char (is_other b'#') u.query (λ c e. ground (arith, e)) h.3.0),
    ) in
    let path : all_of (is_other b'?') u.path ≡ true =
      all_of-weaken is_path_char (is_other b'?') u.path (λ c e. ground (arith, e)) h.2.0 in
    rw
      (
        is_netloc-all_of u.netloc h.1.0,
        before-append b'#' (u.path ++ after_mark b'?' u.query) u.fragment path_query,
        after-append b'#' (u.path ++ after_mark b'?' u.query) u.fragment path_query,
        before-append b'?' u.path u.query path,
        after-append b'?' u.path u.query path,
        h.2.2,
      )
      (rw (if-same (has_text u.scheme uses_params) u.path))

-- The whole text is kept: it begins with a letter and has no tab and no line end.
spelled-kept :
    (u : Url)
    → IsUrl u
    → all_of is_kept (spelled u.scheme u.netloc u.path u.query u.fragment) ≡ true
spelled-kept u h =
    let n : all_of is_kept u.netloc ≡ true =
      all_of-weaken is_host_char is_kept u.netloc (λ c e. ground (arith, e)) h.1.0 in
    let p : all_of is_kept u.path ≡ true =
      all_of-weaken is_path_char is_kept u.path (λ c e. ground (arith, e)) h.2.0 in
    let q : all_of is_kept u.query ≡ true =
      all_of-weaken is_query_char is_kept u.query (λ c e. ground (arith, e)) h.3.0 in
    let s : all_of is_kept u.scheme ≡ true =
      all_of-weaken is_scheme_char is_kept u.scheme (λ c e. ground (arith, e))
        (is_scheme-all_of u.scheme h.0.0) in
    rw (
      all_of-append is_kept u.scheme,
      s,
      all_of-append is_kept u.netloc,
      n,
      all_of-append is_kept (u.path ++ after_mark b'?' u.query),
      all_of-append is_kept u.path,
      p,
      all_of-after_mark is_kept b'?' u.query refl q,
      all_of-after_mark is_kept b'#' u.fragment refl h.3.1,
    )

drop_while-is_scheme :
    (s r : Text) → is_scheme s ≡ true → drop_while is_control_or_space (s ++ r) ≡ s ++ r
unfolding drop_while
drop_while-is_scheme [] r e = absurd (cc)
drop_while-is_scheme (c ∷ s) r e = ground (arith, e)

stops-parts :
    (p q f : Text)
    → with_slash p ≡ p
    → stops is_netloc_char ((p ++ after_mark b'?' q) ++ after_mark b'#' f) ≡ true
stops-parts [] [] [] e = refl
stops-parts [] [] (c ∷ f) e = refl
stops-parts [] (c ∷ q) f e = refl
stops-parts (c ∷ p) q f e =
    let slash : c ≡ b'/' = elim (Bool-cases (c == b'/')) [
      | inl y ↦ ground (arith, y)
      | inr n ↦ ground (arith, n, e)
    ] in
    rw slash

stops-tail :
    (u : Url)
    → IsUrl u
    → stops is_netloc_char ((u.path ++ after_mark b'?' u.query) ++ after_mark b'#' u.fragment)
      ≡ true
stops-tail u h = stops-parts u.path u.query u.fragment h.2.1

-- Reading back the text of a URL gives the URL: its scheme in lower case, its netloc with neither a
-- bracket nor a delimiter, a path that is empty or begins with a slash, and neither a tab nor a line
-- end in any part.
pub parse_url-show_url : (u : Url) → IsUrl u → parse_url (show_url u) ≡ some u
unfolding parse_url
parse_url-show_url u h =
    rw
      (
        show_url-spelled u h,
        drop_while-is_scheme u.scheme _ h.0.0,
        keep-all_of (spelled u.scheme u.netloc u.path u.query u.fragment) (spelled-kept u h),
        split_scheme-append u.scheme _ h.0.0 h.0.1,
        split_netloc-append u.netloc _
            (all_of-weaken is_host_char is_netloc_char u.netloc (λ c e. ground (arith, e)) h.1.0)
            (stops-tail u h),
      )
      (parse_rest-spelled u h)
