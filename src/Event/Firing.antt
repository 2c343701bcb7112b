-- ===== src/Event/Firing.antt =====
-- The block of a subscription that `listener_get` has just found is live.
use mathlib.Core.List.{Memᴰ}
use mathlib.Core.List.Memᴰ
use c_cometd_client.Prelude.{
  ◌≡◌, refl, ap, crash, starved, sym, ◌∙◌, subst, inl, inr, Bool-cases, String, str_eq, true, false,
  List, [], ◌∷◌, arith, eq→==, done, Outcome-cases, done-injective,
}
use c_cometd_client.Libs.Strings.{GStrings}
use c_cometd_client.State.Types.{Subscription, Listeners}
use c_cometd_client.Channel.{channel_is_wildcard}
use c_cometd_client.Event.Table.{lookup}
use c_cometd_client.Event.{has_address, is_subscribed, listener_get}
use c_cometd_client.Event.Getting.{matched, listener_get-lookups, mem-lookups_iff}

has_address_of_mem :
    (s : Subscription) (list : List Subscription) → Memᴰ s list → has_address s.address list ≡ true
unfolding has_address
has_address_of_mem s [] m = absurd (Memᴰ.not-nil m)
has_address_of_mem s (x ∷ list) (Memᴰ.head e) = rw (eq→== x.address s.address (rw e refl)) refl
has_address_of_mem s (x ∷ list) (Memᴰ.tail m) = ground (arith, has_address_of_mem s list m)

is_subscribed_of_mem :
    (k : String) (s : Subscription) (t : Listeners) → Memᴰ s (lookup k t) → is_subscribed t s ≡ true
unfolding is_subscribed lookup
is_subscribed_of_mem k s [] m = absurd (Memᴰ.not-nil m)
is_subscribed_of_mem k s ((j, list) ∷ t) m = elim (Bool-cases (str_eq j k)) [
  | inl same ↦ rw (has_address_of_mem s list (rw same at m)) refl
  | inr other ↦ ground (arith, is_subscribed_of_mem k s t (rw other at m))
]

module _ (g : GStrings) where
  plain_of_get :
      (t : Listeners) (channel : String) (list : List Subscription)
      → listener_get g t channel ≡ done list
      → channel_is_wildcard channel ≡ done false
  unfolding listener_get
  plain_of_get t channel list e = elim (Outcome-cases (channel_is_wildcard channel)) [
    | inr (inl h) ↦
        let c : listener_get g t channel ≡ crash = rw (h, listener_get) in absurd (ground arith)
    | inr (inr h) ↦
        let c : listener_get g t channel ≡ starved = rw (h, listener_get) in absurd (ground arith)
    | inl (b, h) ↦ elim (Bool-cases b) [
      | inl wild ↦
          let c : listener_get g t channel ≡ crash = rw (h ∙ ap done wild, listener_get) in
          absurd (ground arith)
      | inr plain ↦ rw (h, plain) refl
    ]
  ]

  pub listener_get-IsSubscribed :
      (t : Listeners) (channel : String) (list : List Subscription) (s : Subscription)
      → listener_get g t channel ≡ done list
      → Memᴰ s list
      → is_subscribed t s ≡ true
  listener_get-IsSubscribed t channel list s e m =
      let plain = plain_of_get t channel list e in
      let found = done-injective _ _ (sym (listener_get-lookups g t channel plain) ∙ e) in
      let (k, hit, held) =
        (mem-lookups_iff s t (matched g channel)).0 (subst (Memᴰ s) (sym found) m) in
      is_subscribed_of_mem k s t held
