-- ===== src/Channel.antt =====
-- src/channel.c: which channels and wildcard patterns a message's channel matches.
pub mod Matches
pub mod Patterns
use Prim.Native.Char.{Char, code}
use Prim.Native.String.{len}
use text.Mathlib.Text.{char_at?}
use c_cometd_client.Prelude.{
  ℕ, zero, suc, ◌+◌, ◌-◌, ◌%◌, ◌^◌, min, String, Bool, true, false, Option, none, some, List, [],
  ◌∷◌, ltb, ◌==◌, if◌then◌else◌, length, set, replicate, Outcome, done, crash, starved, Cmd, pure,
  reads, and_then, ◌>>=◌, ◌>>◌,
}
use c_cometd_client.Libs.Strings.{GStrings}

abbrev pub max_channel_len : ℕ
max_channel_len = 512

abbrev pub max_channel_parts : ℕ
max_channel_parts = 254

abbrev is_star : Option Char → Bool
is_star none = false
is_star (some c) = code c == b'*'

-- A read at channel[-1], which is what an empty channel gives, is a crash.
unfoldable pub channel_is_wildcard : String → Outcome Bool
channel_is_wildcard channel =
    let n = min (len channel) max_channel_len in
    if n == 0 then crash else done (is_star (char_at? channel (n - 1)))

-- `char* tmp[COMETD_MAX_CHANNEL_PARTS+2]`
abbrev pub Tmp : Type 0
Tmp = List (Option String)

-- `tmp[i] = s`, a crash out of bounds
unfoldable pub store : ℕ → String → Cmd Tmp (Unit {0})
store i s tmp = if ltb i (length tmp) then done (tt, set tmp i (some s)) else crash

-- The strings before the NULL that ends the array; a crash where no NULL stands in it.
unfoldable pub until_null : Tmp → Outcome (List String)
until_null [] = crash
until_null (none ∷ tmp) = done []
until_null (some s ∷ tmp) = elim (until_null tmp) [
  | done ps ↦ done (s ∷ ps)
  | crash ↦ crash
  | starved ↦ starved
]

-- "add double wildcard"
unfoldable pub add_double : ℕ → ℕ → Cmd Tmp (Unit {0})
add_double parts_len i =
    if ltb i ((parts_len + 2 ^ 32 - 1) % 2 ^ 32) then store (i + 1) "**" else pure tt

module _ (g : GStrings) where
  open g use {strsplit, strjoinv}

  -- g_strjoinv("/", tmp)
  unfoldable pub join : Cmd Tmp String
  join = do ps ← reads until_null; pure (strjoinv ps)

  -- "add single wildcard"; the `guint` differences wrap.
  unfoldable pub add_single : ℕ → ℕ → List String → Cmd Tmp (List String)
  add_single parts_len i channels =
      if i == (parts_len + 2 ^ 32 - 2) % 2 ^ 32
      then (do store (i + 1) "*"; single ← join; pure (single ∷ channels))
      else pure channels

  -- One round of the loop; either branch of the code's first test adds the joined array.
  unfoldable pub matches_round : ℕ → ℕ → String → List String → Cmd Tmp (List String)
  matches_round parts_len i part channels = do
    store i part
    add_double parts_len i
    channel ← join
    add_single parts_len i (channel ∷ channels)

  unfoldable pub matches_loop : ℕ → ℕ → List String → List String → Cmd Tmp (List String)
  matches_loop parts_len i [] channels = pure channels
  matches_loop parts_len i (part ∷ parts) channels = do
    channels' ← matches_round parts_len i part channels
    matches_loop parts_len (i + 1) parts channels'

  unfoldable pub channel_matches : String → Outcome (List String)
  channel_matches channel =
      let parts = strsplit channel in
      if ltb max_channel_parts (length parts)
      then done []
      else elim (matches_loop (length parts) 0 parts [] (replicate (max_channel_parts + 2) none)) [
        | done (channels, tmp) ↦ done channels
        | crash ↦ crash
        | starved ↦ starved
      ]
