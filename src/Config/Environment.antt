-- ===== src/Config/Environment.antt =====
-- The settings that affiliate-reconciliation-backend/app/config.py reads from the environment, as
-- functions of the variables: none is a variable that is not set. Texts are ASCII.
use affiliate_platform.Prelude.{
  ℕ, ◌+◌, ◌-◌, ◌*◌, Bool, true, false, ◌&&◌, ◌||◌, Option, none, some, List, [], ◌∷◌, Text, codes,
  lower, same_text, is_space, rstrip, drop_while, leb, ◌==◌, if◌then◌else◌, ◌≡◌, refl, map,
}

-- `a or b`: an empty text counts as none.
abbrev pub or_text : Option Text → Text → Text
or_text none b = b
or_text (some []) b = b
or_text (some (c ∷ a)) b = c ∷ a

-- `a or None`.
abbrev pub or_none : Option Text → Option Text
or_none none = none
or_none (some []) = none
or_none (some (c ∷ a)) = some (c ∷ a)

-- `text.lower() in {"1", "true", "yes"}`.
abbrev pub is_enabled : Text → Bool
is_enabled t =
    same_text (lower t) (codes "1")
    || (same_text (lower t) (codes "true") || same_text (lower t) (codes "yes"))

-- The variable with its new and its old name.
unfoldable pub use_redis_effective : Option Text → Option Text → Bool
use_redis_effective primary legacy = is_enabled (or_text primary (or_text legacy (codes "false")))

unfoldable pub redis_url_effective : Option Text → Option Text → Text
redis_url_effective primary legacy =
    or_text primary (or_text legacy (codes "redis://localhost:6379/0"))

-- A variable that is set to an empty text keeps it.
abbrev pub value_with_default : Text → Option Text → Text
value_with_default default none = default
value_with_default default (some t) = t

unfoldable pub enable_discord_bot : Option Text → Bool
enable_discord_bot v = is_enabled (value_with_default (codes "false") v)

abbrev pub api_base_url : Option Text → Text
api_base_url v = value_with_default (codes "http://localhost:8000/api/v1") v

-- `text.split(",")`, with the part that is read, in reverse.
abbrev pub cons_part : ℕ → List Text → List Text
cons_part c [] = (c ∷ []) ∷ []
cons_part c (part ∷ parts) = (c ∷ part) ∷ parts

unfoldable pub split_commas : Text → List Text
split_commas [] = [] ∷ []
split_commas (c ∷ t) =
    let parts = split_commas t in if c == b',' then [] ∷ parts else cons_part c parts

unfoldable pub stripped : Text → Text
unfolding drop_while rstrip
stripped t = rstrip is_space (drop_while is_space t)

abbrev pub all_digits : Text → Bool
all_digits [] = true
all_digits (c ∷ t) = leb b'0' c && leb c b'9' && all_digits t

-- `text.isdigit()`.
abbrev pub is_digits : Text → Bool
is_digits [] = false
is_digits (c ∷ t) = all_digits (c ∷ t)

-- `int(text)`, of digits, behind a number that is read.
abbrev pub number_from : ℕ → Text → ℕ
number_from n [] = n
number_from n (c ∷ t) = number_from (10 * n + (c - b'0')) t

abbrev pub numbers_of : List Text → List ℕ
numbers_of [] = []
numbers_of (part ∷ parts) =
    if is_digits part then number_from 0 part ∷ numbers_of parts else numbers_of parts

-- DISCORD_COMMAND_GUILDS.
unfoldable pub discord_command_guilds : Option Text → List ℕ
unfolding split_commas stripped
discord_command_guilds v =
    numbers_of (map stripped (split_commas (stripped (value_with_default [] v))))

guilds_read :
    (discord_command_guilds (some (codes " 12, x7,,305 ")) ≡ 12 ∷ 305 ∷ [])
    × (discord_command_guilds none ≡ [])
unfolding discord_command_guilds
guilds_read = (refl, refl)

redis_enabled :
    (use_redis_effective none (some (codes "Yes")) ≡ true)
    × (use_redis_effective (some (codes "0")) (some (codes "true")) ≡ false)
    × (use_redis_effective (some []) none ≡ false)
unfolding use_redis_effective
redis_enabled = (refl, refl, refl)
