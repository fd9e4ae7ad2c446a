-- ===== src/Discord/Lifecycle.antt =====
-- The start, the end and the registered commands of the bot
-- (affiliate-reconciliation-backend/app/services/discord_bot.py). Whether the client is closed, and
-- which synchronisations raise, is discord's.
use affiliate_platform.Prelude.{
  ℕ, ◌+◌, ◌≡◌, String, Bool, true, false, not, ◌&&◌, Option, List, [], ◌∷◌, map, if◌then◌else◌,
  arith, is_some,
}

-- The configuration that a start reads.
pub record Launch : Type 0 where
  pub enable_discord_bot : Bool
  pub discord_bot_token : Option String

-- `_bot_started`, with how often the client was launched and closed.
pub record BotState : Type 0 where
  pub bot_started : Bool
  pub launched : ℕ
  pub closes : ℕ

abbrev pub not_started : BotState
not_started = record { bot_started = false; launched = 0; closes = 0 }

unfoldable pub start_discord_bot : Launch → BotState → BotState
start_discord_bot l b =
    if b.bot_started
    then b
    else if not l.enable_discord_bot
    then b
    else if not (is_some l.discord_bot_token)
    then b
    else record b { bot_started = true; launched = b.launched + 1 }

-- `stop_discord_bot`, by what `bot.is_closed()` says; an exception of `close` resets the flag, too.
unfoldable pub stop_discord_bot : Bool → BotState → BotState
stop_discord_bot is_closed b =
    if b.bot_started && not is_closed
    then record b { bot_started = false; closes = b.closes + 1 }
    else b

-- What the commands are synchronised with.
pub data Scope : Type 0 where
  global : Scope
  guild : ℕ → Scope

-- `_ensure_guild_commands`: a synchronisation for each guild, or a global one, with whether it
-- succeeded; one that raises does not stop the others.
unfoldable pub ensure_guild_commands : (Scope → Bool) → List ℕ → List (Scope × Bool)
ensure_guild_commands succeeds [] = (global, succeeds global) ∷ []
ensure_guild_commands succeeds (g ∷ guilds) = map (λ n. (guild n, succeeds (guild n))) (g ∷ guilds)

-- A call of one of the two functions.
pub data LifecycleCall : Type 0 where
  start_call : Launch → LifecycleCall
  stop_call : Bool → LifecycleCall

unfoldable pub after_calls : List LifecycleCall → BotState → BotState
unfolding start_discord_bot stop_discord_bot
after_calls [] b = b
after_calls (start_call l ∷ calls) b = after_calls calls (start_discord_bot l b)
after_calls (stop_call is_closed ∷ calls) b = after_calls calls (stop_discord_bot is_closed b)

-- One launch is open while the bot is started, and none else.
abbrev pub IsBalanced : BotState → Type 0
IsBalanced b = b.launched ≡ b.closes + (if b.bot_started then 1 else 0)

start-IsBalanced : (l : Launch) (b : BotState) → IsBalanced b → IsBalanced (start_discord_bot l b)
unfolding start_discord_bot
start-IsBalanced l b h = ground arith

stop-IsBalanced :
    (is_closed : Bool) (b : BotState) → IsBalanced b → IsBalanced (stop_discord_bot is_closed b)
unfolding stop_discord_bot
stop-IsBalanced is_closed b h = ground arith

calls-IsBalanced :
    (calls : List LifecycleCall) (b : BotState) → IsBalanced b → IsBalanced (after_calls calls b)
unfolding after_calls
calls-IsBalanced [] b h = h
calls-IsBalanced (start_call l ∷ calls) b h = calls-IsBalanced calls _ (start-IsBalanced l b h)
calls-IsBalanced (stop_call c ∷ calls) b h = calls-IsBalanced calls _ (stop-IsBalanced c b h)

-- After any sequence of starts and stops of a bot that was not started, the client was launched as
-- often as it was closed, and once more exactly if the bot is started now.
pub after_calls-IsBalanced :
    (calls : List LifecycleCall) → IsBalanced (after_calls calls not_started)
after_calls-IsBalanced calls = calls-IsBalanced calls not_started (omega arith)

-- A bot whose client has closed by itself stays marked as started: no stop and no start that follows
-- launches it again.
pub closed_stays :
    (b : BotState) (l : Launch)
    → b.bot_started ≡ true
    → start_discord_bot l (stop_discord_bot true b) ≡ b
unfolding start_discord_bot stop_discord_bot
closed_stays b l h = ground arith
