-- ===== src/Samples/Firing.antt =====
-- Witnesses on callbacks that unsubscribe while a message is fired.
use mathlib.Core.List.{Memᴰ}
use c_cometd_client.Prelude.{
  done-injective, ◌≡◌, refl, subst, All, [], ◌∷◌, done, crash, Cmd, ◌==◌, if◌then◌else◌,
}
use c_cometd_client.Conn.Types.{Code, success}
use c_cometd_client.State.Types.{Callback, Subscription, foreign}
use c_cometd_client.Event.{subscription}
use c_cometd_client.Memory.Firing.{
  Blocks, IsLive, Spares, unsubscribing, fire_blocks, fire_values, fire_blocks-fire_values,
  fire_blocks-crash,
}

abbrev first : Subscription
first = subscription 0 "/chat/*" (foreign 5)

abbrev second : Subscription
second = subscription 1 "/chat/*" (foreign 6)

abbrev blocks : Blocks
blocks = record {
  heap = record { live = 1 ∷ 0 ∷ []; next = 2 };
  table = ("/chat/*", first ∷ second ∷ []) ∷ [];
}

-- Callback 5 unsubscribes the second subscription.
abbrev hostile : Callback → Cmd Blocks Code
hostile (foreign n) b = if n == 5 then unsubscribing second b else done (success, b)
hostile _ b = done (success, b)

fire_blocks-crash_example : fire_blocks hostile (first ∷ second ∷ []) blocks ≡ crash
fire_blocks-crash_example =
    fire_blocks-crash hostile first second (second ∷ []) blocks refl refl (Memᴰ.head refl)
      (λ b dead. (b, refl, dead), tt) refl

-- Callback 6 unsubscribes its own.
abbrev polite : Callback → Cmd Blocks Code
polite (foreign n) b = if n == 6 then unsubscribing second b else done (success, b)
polite _ b = done (success, b)

polite-Spares : Spares polite (first ∷ second ∷ [])
polite-Spares = (
  λ b b' code e live.
      subst (λ r. All (λ x. IsLive x r.1) (second ∷ [])) (done-injective (success, b) (code, b') e)
        live,
  (λ b b' code e live. tt, tt),
)

fire_blocks-fire_values_example :
    fire_blocks polite (first ∷ second ∷ []) blocks
    ≡ fire_values polite (first ∷ second ∷ []) blocks
fire_blocks-fire_values_example =
    fire_blocks-fire_values polite (first ∷ second ∷ []) blocks (refl, (refl, tt)) polite-Spares
