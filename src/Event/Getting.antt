-- ===== src/Event/Getting.antt =====
-- The loops of `listener_get` against a direct description.
use mathlib.Core.List.{
  reverse-append, reverse-reverse, append_assoc, append-nil, reverse-cons, Memᴰ,
}
use mathlib.Core.List.Memᴰ
use c_cometd_client.Prelude.{
  ◌≡◌, refl, ◌∙◌, ◌↔◌, inl, inr, String, false, List, [], ◌∷◌, ◌++◌, map, reverse, ltb, length,
  if◌then◌else◌, done,
}
use c_cometd_client.Libs.Strings.{GStrings}
use c_cometd_client.State.Types.{Subscription, Listeners}
use c_cometd_client.Channel.{channel_is_wildcard}
use c_cometd_client.Channel.Matches.{patterns, channel_matches-patterns}
use c_cometd_client.Event.Table.{lookup}
use c_cometd_client.Event.{prepend_all, collect, listener_get}

-- The subscriptions of some channels, in the order of the channels and of each channel's list.
abbrev pub lookups : Listeners → List String → List Subscription
lookups t [] = []
lookups t (c ∷ channels) = lookup c t ++ lookups t channels

prepend_all-reverse : (l acc : List Subscription) → prepend_all l acc ≡ reverse l ++ acc
unfolding prepend_all
prepend_all-reverse [] acc = refl
prepend_all-reverse (s ∷ l) acc =
    prepend_all-reverse l (s ∷ acc) ∙ rw (reverse-cons s l, append_assoc)

collect-reverse :
    (t : Listeners) (cs : List String) (acc : List Subscription)
    → collect t cs acc ≡ reverse (lookups t cs) ++ acc
unfolding collect
collect-reverse t [] acc = refl
collect-reverse t (c ∷ cs) acc =
    collect-reverse t cs _
    ∙ rw (
      prepend_all-reverse (lookup c t) acc,
      reverse-append (lookup c t) (lookups t cs),
      append_assoc,
    )

module _ (g : GStrings) where
  open g use {strsplit, strjoinv}

  -- The channels and patterns that a channel's message is looked up under.
  abbrev pub matched : String → List String
  matched channel =
      if ltb 254 (length (strsplit channel)) then [] else map strjoinv (patterns (strsplit channel))

  -- For a channel that is not empty and no wildcard, `listener_get` gives the subscriptions of the
  -- patterns it matches: the most specific pattern first, and in a pattern's list the oldest first.
  pub listener_get-lookups :
      (t : Listeners) (channel : String)
      → channel_is_wildcard channel ≡ done false
      → listener_get g t channel ≡ done (lookups t (matched channel))
  unfolding listener_get
  listener_get-lookups t channel h = rw (
    h,
    listener_get,
    channel_matches-patterns g channel,
    collect-reverse t (matched channel) [],
    append-nil,
    reverse-reverse,
  )

Memᴰ-lookups :
    {s : Subscription} (t : Listeners) (cs : List String)
    → Memᴰ s (lookups t cs)
    → (k : String) × Memᴰ k cs × Memᴰ s (lookup k t)
Memᴰ-lookups t [] m = absurd (Memᴰ.not-nil m)
Memᴰ-lookups t (c ∷ cs) m = elim (Memᴰ.append_cases (lookup c t) m) [
  | inl here ↦ (c, Memᴰ.head refl, here)
  | inr there ↦ let (k, a, b) = Memᴰ-lookups t cs there in (k, Memᴰ.tail a, b)
]

Memᴰ-lookups_of :
    {s : Subscription} {k : String} (t : Listeners) (cs : List String)
    → Memᴰ k cs
    → Memᴰ s (lookup k t)
    → Memᴰ s (lookups t cs)
Memᴰ-lookups_of t [] a m = absurd (Memᴰ.not-nil a)
Memᴰ-lookups_of t (c ∷ cs) (Memᴰ.head e) m = Memᴰ.append_left _ (rw e at m)
Memᴰ-lookups_of t (c ∷ cs) (Memᴰ.tail a) m = Memᴰ.append_right _ (Memᴰ-lookups_of t cs a m)

pub mem-lookups_iff :
    (s : Subscription) (t : Listeners) (cs : List String)
    → Memᴰ s (lookups t cs) ↔ ((k : String) × Memᴰ k cs × Memᴰ s (lookup k t))
mem-lookups_iff s t cs = (Memᴰ-lookups t cs, λ (k, a, b). Memᴰ-lookups_of t cs a b)
