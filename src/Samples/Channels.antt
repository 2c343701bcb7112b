-- ===== src/Samples/Channels.antt =====
-- Witnesses on channels, subscriptions and the inbox.
use mathlib.Core.List.Memᴰ
use mathlib.Core.List.{Memᴰ}
use c_cometd_client.Prelude.{
  ℕ, ◌≡◌, refl, ◌↔◌, false, List, [], ◌∷◌, map, ltb, length, if◌then◌else◌, arith, done,
}
use c_cometd_client.State.Types.{Subscription, foreign}
use c_cometd_client.Channel.{channel_is_wildcard, channel_matches}
use c_cometd_client.Channel.Matches.{patterns, channel_matches-patterns}
use c_cometd_client.Channel.Patterns.{Matches}
use c_cometd_client.Event.Table.{lookup, insert}
use c_cometd_client.Event.{listener_add, listener_get}
use c_cometd_client.Event.WellFormed.{IsWellFormed, listener_add-IsWellFormed}
use c_cometd_client.Event.Matching.{listener_get-Matches_iff}
use c_cometd_client.Inbox.{inbox_push, inbox_push_msg, inbox_take}
use c_cometd_client.Inbox.Fifo.{push, take, Run, start, step, Run-fifo}
use c_cometd_client.Samples.Parts.{split, join_parts, split_strings, split_laws}
use c_cometd_client.Samples.World.{listeners}

channel_matches-patterns_example :
    channel_matches split_strings "/chat/room"
    ≡ done (
        if ltb 254 (length (split "/chat/room"))
        then []
        else map join_parts (patterns (split "/chat/room")))
channel_matches-patterns_example = channel_matches-patterns split_strings "/chat/room"

room_is_no_wildcard : channel_is_wildcard "/chat/room" ≡ done false
unfolding channel_is_wildcard
room_is_no_wildcard = refl

pub listeners-IsWellFormed : IsWellFormed 1 listeners
unfolding lookup listener_add insert
listeners-IsWellFormed =
    listener_add-IsWellFormed 0 [] "/chat/*" (foreign 5) (λ k s m. absurd (Memᴰ.not-nil m))

listener_get-Matches_iff_example :
    (list : List Subscription) × (listener_get split_strings listeners "/chat/room" ≡ done list)
    × ((s : Subscription)
        → Memᴰ s list
          ↔ (Memᴰ s (lookup s.channel listeners) × Matches (split s.channel) (split "/chat/room")))
listener_get-Matches_iff_example =
    listener_get-Matches_iff split_strings split_laws 1 listeners "/chat/room"
      listeners-IsWellFormed room_is_no_wildcard (omega arith)

-- Two messages are pushed, and one is taken.
sample-Run : Run {Node = ℕ} [] (1 ∷ 2 ∷ []) (1 ∷ []) (2 ∷ [])
unfolding inbox_push inbox_push_msg inbox_take
sample-Run = step (push (1 ∷ 2 ∷ [])) (step (take refl) start)

Run-fifo_example : ◌≡◌ {A = List ℕ} (1 ∷ 2 ∷ []) (1 ∷ 2 ∷ [])
Run-fifo_example = Run-fifo sample-Run
