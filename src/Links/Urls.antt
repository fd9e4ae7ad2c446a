-- ===== src/Links/Urls.antt =====
-- What the program uses of Python's urllib.parse: `urlparse` and `urlunparse`, on ASCII. The
-- parameters of a path stay in the path.
use affiliate_platform.Prelude.{
  ℕ, String, Bool, true, false, not, ◌&&◌, ◌||◌, Option, none, some, List, [], ◌∷◌, ◌++◌, leb, ◌==◌,
  if◌then◌else◌, Text, codes, same_text, starts_with, skip, contains, take_while, drop_while, lower,
  is_alphanumeric,
}
use mathlib.Core.List.{reverse}

pub record Url : Type 0 where
  pub scheme : Text
  pub netloc : Text
  pub path : Text
  pub query : Text
  pub fragment : Text

abbrev pub is_empty : Text → Bool
is_empty [] = true
is_empty (c ∷ t) = false

abbrev pub all_of : (ℕ → Bool) → Text → Bool
all_of p [] = true
all_of p (c ∷ t) = p c && all_of p t

abbrev pub is_other : ℕ → ℕ → Bool
is_other d c = not (c == d)

-- `url.split(d, 1)`: what stands before the first d and what stands behind it.
unfoldable pub before : ℕ → Text → Text
unfolding take_while
before d t = take_while (is_other d) t

unfoldable pub after : ℕ → Text → Text
unfolding drop_while
after d t = skip (d ∷ []) (drop_while (is_other d) t)

abbrev pub is_letter : ℕ → Bool
is_letter c = (leb b'A' c && leb c b'Z') || (leb b'a' c && leb c b'z')

-- `scheme_chars`.
abbrev pub is_scheme_char : ℕ → Bool
is_scheme_char c = is_alphanumeric c || (c == b'+' || (c == b'-' || c == b'.'))

abbrev pub is_scheme : Text → Bool
is_scheme [] = false
is_scheme (c ∷ t) = is_letter c && all_of is_scheme_char (c ∷ t)

unfoldable pub split_scheme : Text → Text × Text
unfolding before after contains
split_scheme t =
    if contains (b':' ∷ []) t && is_scheme (before b':' t)
    then (lower (before b':' t), after b':' t)
    else ([], t)

-- The characters that end a netloc.
abbrev pub is_netloc_char : ℕ → Bool
is_netloc_char c = is_other b'/' c && (is_other b'?' c && is_other b'#' c)

unfoldable pub split_netloc : Text → Text × Text
unfolding take_while drop_while
split_netloc t =
    if starts_with (codes "//") t
    then (
      take_while is_netloc_char (skip (codes "//") t),
      drop_while is_netloc_char (skip (codes "//") t),
    )
    else ([], t)

-- One bracket without the other is an error; an address between two brackets is not looked at.
unfoldable pub is_netloc : Text → Bool
unfolding contains
is_netloc t =
    if contains (b'[' ∷ []) t then contains (b']' ∷ []) t else not (contains (b']' ∷ []) t)

-- The schemes of `uses_netloc` and `uses_params`.
abbrev pub has_text : Text → List String → Bool
has_text t [] = false
has_text t (s ∷ l) = same_text t (codes s) || has_text t l

abbrev pub uses_netloc : List String
uses_netloc =
    "ftp" ∷ "http" ∷ "gopher" ∷ "nntp" ∷ "telnet" ∷ "imap" ∷ "wais" ∷ "file" ∷ "mms" ∷ "https"
    ∷ "shttp" ∷ "snews" ∷ "prospero" ∷ "rtsp" ∷ "rtsps" ∷ "rtspu" ∷ "rsync" ∷ "svn" ∷ "svn+ssh"
    ∷ "sftp" ∷ "nfs" ∷ "git" ∷ "git+ssh" ∷ "ws" ∷ "wss" ∷ []

abbrev pub uses_params : List String
uses_params =
    "" ∷ "ftp" ∷ "hdl" ∷ "prospero" ∷ "http" ∷ "https" ∷ "shttp" ∷ "rtsp" ∷ "rtspu" ∷ "sip" ∷ "sips"
    ∷ "mms" ∷ "sftp" ∷ "tel" ∷ []

-- A semicolon that ends the last segment and is its only one: empty parameters, which are not
-- written back. On the reversed path.
abbrev pub without_params : Text → Text → Text
without_params path [] = path
without_params path (c ∷ t) =
    if (c == b';') && not (contains (b';' ∷ []) (before b'/' t)) then reverse t else path

abbrev pub is_kept : ℕ → Bool
is_kept c = is_other 9 c && (is_other 10 c && is_other 13 c)

unfoldable pub keep : Text → Text
keep [] = []
keep (c ∷ t) = if is_kept c then c ∷ keep t else keep t

abbrev pub is_control_or_space : ℕ → Bool
is_control_or_space c = leb c 32

-- `urlparse` behind the scheme and the netloc.
unfoldable pub parse_rest : Text → Text × Text → Option Url
unfolding is_netloc before after contains
parse_rest scheme (netloc, rest) =
    let path_query = before b'#' rest in
    let path = before b'?' path_query in
    if is_netloc netloc
    then some (record {
      scheme = scheme;
      netloc = netloc;
      path = if has_text scheme uses_params then without_params path (reverse path) else path;
      query = after b'?' path_query;
      fragment = after b'#' rest;
    })
    else none

-- None stands for the ValueError on a netloc.
unfoldable pub parse_url : Text → Option Url
parse_url t =
    let split = split_scheme (keep (drop_while is_control_or_space t)) in
    parse_rest split.0 (split_netloc split.1)

-- `urlunparse`.
abbrev pub with_slash : Text → Text
with_slash t = if is_empty t || starts_with (b'/' ∷ []) t then t else b'/' ∷ t

abbrev pub after_mark : ℕ → Text → Text
after_mark mark t = if is_empty t then [] else mark ∷ t

abbrev pub show_authority : Text → Text → Text → Text
show_authority scheme netloc path =
    if not (is_empty netloc) || (has_text scheme uses_netloc && not (starts_with (codes "//") path))
    then codes "//" ++ (netloc ++ with_slash path)
    else path

abbrev pub show_scheme : Text → Text → Text
show_scheme scheme t = if is_empty scheme then t else scheme ++ (b':' ∷ t)

unfoldable pub show_url : Url → Text
show_url u =
    show_scheme u.scheme (show_authority u.scheme u.netloc u.path)
    ++ (after_mark b'?' u.query ++ after_mark b'#' u.fragment)
