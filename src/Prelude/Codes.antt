-- ===== src/Prelude/Codes.antt =====
-- Texts that the program walks, as lists of code points.
use Prim.Native.Char.{code}
use Prim.Native.String
use Prim.Native.String.{String}
use Prim.Native.Nat.{ℕ, ◌+◌}
use mathlib.Core.Path.{◌≡◌, refl}
use mathlib.Core.Bool.{Bool, true, false, ◌&&◌, ◌||◌}
use mathlib.Core.List.{List, [], ◌∷◌, reverse}
use native.Mathlib.Omega.{arith}
use affiliate_platform.Prelude.Tests.{leb, ◌==◌, if◌then◌else◌}

abbrev pub Text : Type 0
Text = List ℕ

abbrev pub codes : String → Text
codes String.[] = []
codes (String.◌∷◌ c s) = code c ∷ codes s

-- Two strings put together.
abbrev pub followed_by : String → String → String
followed_by s t = Prim.Native.String.◌++◌ s t

-- Equality of texts.
abbrev pub same_text : Text → Text → Bool
same_text [] [] = true
same_text (a ∷ s) (b ∷ t) = a == b && same_text s t
same_text _ _ = false

pub same_text_refl : (s : Text) → same_text s s ≡ true
same_text_refl [] = refl
same_text_refl (a ∷ s) = ground (arith, same_text_refl s)

pub eq_of_same_text : (s t : Text) → same_text s t ≡ true → s ≡ t
eq_of_same_text [] [] e = refl
eq_of_same_text (a ∷ s) (b ∷ t) e =
    let h : a ≡ b = ground (arith, e) in
    let k : s ≡ t = eq_of_same_text s t (ground (arith, e)) in cc
eq_of_same_text [] (b ∷ t) e = cc
eq_of_same_text (a ∷ s) [] e = cc

-- `text.startswith(prefix)`
abbrev pub starts_with : Text → Text → Bool
starts_with [] t = true
starts_with (a ∷ s) [] = false
starts_with (a ∷ s) (b ∷ t) = a == b && starts_with s t

-- What is left of a text behind a prefix of that length.
abbrev pub skip : Text → Text → Text
skip [] t = t
skip (a ∷ s) [] = []
skip (a ∷ s) (b ∷ t) = skip s t

-- `part in text`
unfoldable pub contains : Text → Text → Bool
contains part [] = starts_with part []
contains part (a ∷ t) = starts_with part (a ∷ t) || contains part t

-- The longest prefix of characters that pass a test, and the rest.
unfoldable pub take_while : (ℕ → Bool) → Text → Text
take_while p [] = []
take_while p (a ∷ t) = if p a then a ∷ take_while p t else []

unfoldable pub drop_while : (ℕ → Bool) → Text → Text
drop_while p [] = []
drop_while p (a ∷ t) = if p a then drop_while p t else a ∷ t

-- `text.rstrip(characters)` and `text.strip()`.
unfoldable pub rstrip : (ℕ → Bool) → Text → Text
unfolding drop_while
rstrip p t = reverse (drop_while p (reverse t))

-- `text.lower()`, on ASCII.
abbrev pub lower_code : ℕ → ℕ
lower_code c = if leb b'A' c && leb c b'Z' then c + 32 else c

abbrev pub lower : Text → Text
lower [] = []
lower (c ∷ t) = lower_code c ∷ lower t

abbrev pub is_space : ℕ → Bool
is_space c = (leb 9 c && leb c 13) || (leb 28 c && leb c 32)

abbrev pub is_alphanumeric : ℕ → Bool
is_alphanumeric c =
    (leb b'0' c && leb c b'9') || (leb b'A' c && leb c b'Z') || (leb b'a' c && leb c b'z')
