-- ===== src/Event.antt =====
-- src/event.c: the table of subscriptions, and the firing of a message at those that match.
pub mod Table
pub mod Getting
pub mod Matching
pub mod WellFormed
pub mod Refinement
pub mod Firing
use Prim.Native.String.{len}
use c_cometd_client.Prelude.{
  ℕ, ◌-◌, String, Bool, true, false, not, ◌&&◌, Option, none, some, List, [], ◌∷◌, ◌++◌, reverse,
  ltb, ◌==◌, if◌then◌else◌, length, Outcome, done, crash, starved, Cmd, pure, reads, ◌>>=◌,
}
use c_cometd_client.Libs.Strings.{GStrings}
use c_cometd_client.Conn.Types.{Code, success, unknown, is_success}
use c_cometd_client.State.Types.{Callback, Subscription, Listeners}
use c_cometd_client.Channel.{max_channel_len, channel_is_wildcard, channel_matches}
use Table.{lookup, insert, list_remove}

abbrev pub subscription : ℕ → String → Callback → Subscription
subscription address channel cb = record { address = address; channel = channel; callback = cb }

-- g_return_val_if_fail(len > 0 && len < COMETD_MAX_CHANNEL_LEN - 1, NULL)
abbrev pub fits : String → Bool
fits channel = ltb 0 (len channel) && ltb (len channel) (max_channel_len - 1)

-- The new table, and the subscription or NULL; `address` is that of the block that malloc gives.
unfoldable pub listener_add : Listeners → ℕ → String → Callback → Listeners × Option Subscription
listener_add listeners address channel cb =
    let s = subscription address channel cb in
    if fits channel
    then (insert channel (lookup channel listeners ++ s ∷ []) listeners, some s)
    else (listeners, none)

unfoldable pub listener_remove : Listeners → Option Subscription → Listeners × Code
listener_remove listeners none = (listeners, unknown)
listener_remove listeners (some s) =
    (insert s.channel (list_remove s.address (lookup s.channel listeners)) listeners, success)

unfoldable pub listener_count : Listeners → String → ℕ
listener_count listeners channel = length (lookup channel listeners)

-- The inner loop: each subscription of the list is put in front.
unfoldable pub prepend_all : List Subscription → List Subscription → List Subscription
prepend_all [] subscriptions = subscriptions
prepend_all (s ∷ list) subscriptions = prepend_all list (s ∷ subscriptions)

-- The loop over the channels.
unfoldable pub collect : Listeners → List String → List Subscription → List Subscription
unfolding prepend_all
collect map [] subscriptions = subscriptions
collect map (c ∷ channels) subscriptions =
    collect map channels (prepend_all (lookup c map) subscriptions)

-- g_assert(!cometd_channel_is_wildcard(channel)), then the loops.
unfoldable pub listener_get : GStrings → Listeners → String → Outcome (List Subscription)
listener_get g map channel = elim (channel_is_wildcard channel) [
  | done true ↦ crash
  | done false ↦ elim (channel_matches g channel) [
    | done channels ↦ done (reverse (collect map channels []))
    | crash ↦ crash
    | starved ↦ starved
  ]
  | crash ↦ crash
  | starved ↦ starved
]

-- Whether the block of a subscription is live: `cometd_listener_remove` frees it when it leaves the table.
unfoldable pub has_address : ℕ → List Subscription → Bool
has_address a [] = false
has_address a (s ∷ list) = if s.address == a then true else has_address a list

unfoldable pub is_subscribed : Listeners → Subscription → Bool
unfolding has_address
is_subscribed [] s = false
is_subscribed ((k, list) ∷ t) s = if has_address s.address list then true else is_subscribed t s

module _ {S : Type 0} (is_live : S → Subscription → Bool) (call : Callback → Cmd S Code) where
  -- `s->callback`: reading a block that was freed is a crash.
  abbrev pub read_callback : Subscription → S → Outcome Callback
  read_callback s w = if is_live w s then done s.callback else crash

  unfoldable pub fire_loop : List Subscription → Cmd S Code
  fire_loop [] = pure success
  fire_loop (s ∷ list) = do
    callback ← reads (read_callback s)
    code ← call callback
    (if is_success code then fire_loop list else pure unknown)

module _ {S : Type 0} (call : Callback → Cmd S Code) where
  -- The pointers are those that stand in the table when the message is fired; each is read when its
  -- turn comes.
  unfoldable pub listener_fire : GStrings → (S → Listeners) → Option String → Cmd S Code
  listener_fire g listeners none = pure unknown
  listener_fire g listeners (some channel) = do
    list ← reads (λ w. listener_get g (listeners w) channel)
    fire_loop (λ w s. is_subscribed (listeners w) s) call list
