-- ===== src/Samples/Tables.antt =====
-- Witnesses on a table of subscriptions that was changed, and on the bounds of the backoff.
use mathlib.Core.List.{Memᴰ}
use c_cometd_client.Prelude.{ℕ, ◌<◌, ◌≡◌, ◌⊎◌, refl, arith, none, some, [], ◌∷◌, pos}
use c_cometd_client.State.Types.{Subscription, Listeners, foreign}
use c_cometd_client.Event.Table.{lookup, list_remove}
use c_cometd_client.Event.{subscription, listener_add, listener_remove, listener_count}
use c_cometd_client.Event.Refinement.{Reached, empty, added, removed, Reached-refines}
use c_cometd_client.Backoff.{minus_one, get_backoff}
use c_cometd_client.Backoff.Bounds.{get_backoff-bounded}
use c_cometd_client.Samples.World.{short_config}

abbrev earlier : Subscription
earlier = subscription 0 "/chat/*" (foreign 5)

abbrev later : Subscription
later = subscription 1 "/chat/*" (foreign 6)

-- Two subscriptions were added, and the first of them was removed.
abbrev table : Listeners
table =
    let one = (listener_add [] 0 "/chat/*" (foreign 5)).0 in
    let two = (listener_add one 1 "/chat/*" (foreign 6)).0 in (listener_remove two (some earlier)).0

table-Reached : Reached 2 table (later ∷ [])
unfolding list_remove
table-Reached =
    removed earlier (Memᴰ.head refl)
      (added "/chat/*" (foreign 6) (added "/chat/*" (foreign 5) empty))

Reached-refines_example :
    (lookup "/chat/*" table ≡ later ∷ []) × (listener_count table "/chat/*" ≡ 1)
Reached-refines_example = Reached-refines 2 table (later ∷ []) table-Reached "/chat/*"

get_backoff-bounded_example :
    (get_backoff short_config none 2 ≡ minus_one)
    ⊎ ((b : ℕ) × (get_backoff short_config none 2 ≡ pos b) × (b < 3))
get_backoff-bounded_example =
    get_backoff-bounded short_config none 0 2 2 refl refl (λ a e. absurd (ground arith))
