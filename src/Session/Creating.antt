-- ===== src/Session/Creating.antt =====
-- The client that `cometd_new` makes: its two internal subscriptions and the messages they hear.
use c_cometd_client.Prelude.{
  ◌≡◌, ◌≢◌, ◌∙◌, refl, ap, sym, subst, String, Bool-cases, inl, inr, false, List, [], ◌∷◌, All,
  str_eq, eq_iff, arith, done,
}
use c_cometd_client.Libs.Strings.{GStrings, GStringLaws, NoSlash}
use c_cometd_client.State.Types.{Subscription, Listeners, process_handshake, process_connect}
use c_cometd_client.Channel.{channel_is_wildcard}
use c_cometd_client.Channel.Matches.{patterns}
use c_cometd_client.Msg.{channel_meta_handshake, channel_meta_connect}
use c_cometd_client.Event.Table.{lookup, insert}
use c_cometd_client.Event.{subscription, listener_add, listener_get}
use c_cometd_client.Event.Getting.{matched, listener_get-lookups}
use c_cometd_client.Session.{cometd_new}

abbrev pub on_handshake : Subscription
on_handshake = subscription 0 channel_meta_handshake process_handshake

abbrev pub on_connect : Subscription
on_connect = subscription 1 channel_meta_connect process_connect

abbrev table : Listeners
table = (channel_meta_handshake, on_handshake ∷ []) ∷ (channel_meta_connect, on_connect ∷ []) ∷ []

subscriptions-table : (Node : Type 0) → (cometd_new {Node = Node}).subscriptions ≡ table
unfolding cometd_new listener_add insert lookup
subscriptions-table Node = refl

abbrev parts : String → List String
parts name = "" ∷ "meta" ∷ name ∷ []

module _ (g : GStrings) (laws : GStringLaws g)
    (handshake_split : g.strsplit channel_meta_handshake ≡ parts "handshake")
    (connect_split : g.strsplit channel_meta_connect ≡ parts "connect") where
  open g use {strsplit, strjoinv}

  -- A pattern with other parts has no subscription.
  lookup-other :
      (p : String) (ps : List String)
      → (p ∷ ps) ≢ ("" ∷ [])
      → All NoSlash (p ∷ ps)
      → (p ∷ ps) ≢ parts "handshake"
      → (p ∷ ps) ≢ parts "connect"
      → lookup (strjoinv (p ∷ ps)) table ≡ []
  unfolding lookup
  lookup-other p ps ne plain not_handshake not_connect =
      let back = laws.strsplit-strjoinv p ps ne plain in
      elim (Bool-cases (str_eq channel_meta_handshake (strjoinv (p ∷ ps)))) [
        | inl same ↦
            absurd
              (not_handshake (sym back ∙ ap strsplit (sym ((eq_iff _ _).0 same)) ∙ handshake_split))
        | inr other ↦ elim (Bool-cases (str_eq channel_meta_connect (strjoinv (p ∷ ps)))) [
          | inl same ↦
              absurd
                (not_connect (sym back ∙ ap strsplit (sym ((eq_iff _ _).0 same)) ∙ connect_split))
          | inr different ↦ rw (other, different) refl
        ]
      ]

  star_plain : NoSlash "*"
  star_plain = (ground arith, tt)

  stars_plain : NoSlash "**"
  stars_plain = (ground arith, (ground arith, tt))

  meta_plain : NoSlash "meta"
  meta_plain =
      let plain : All NoSlash (parts "connect") =
        subst (All NoSlash) connect_split (laws.strsplit-NoSlash channel_meta_connect) in
      plain.1.0

  matched-parts :
      (channel name : String)
      → strsplit channel ≡ parts name
      → matched g channel
        ≡ strjoinv (parts name)
          ∷ strjoinv ("" ∷ "meta" ∷ "*" ∷ [])
          ∷ strjoinv ("" ∷ "meta" ∷ "**" ∷ [])
          ∷ strjoinv ("" ∷ "**" ∷ [])
          ∷ []
  unfolding patterns
  matched-parts channel name e = rw e refl

  joined : (channel name : String) → strsplit channel ≡ parts name → strjoinv (parts name) ≡ channel
  joined channel name e = ap strjoinv (sym e) ∙ laws.strjoinv-strsplit channel

  single_other : lookup (strjoinv ("" ∷ "meta" ∷ "*" ∷ [])) table ≡ []
  single_other =
      lookup-other "" ("meta" ∷ "*" ∷ []) (λ e. ground arith) (tt, (meta_plain, (star_plain, tt)))
        (λ e. ground (arith, eq_iff "*" "handshake")) (λ e. ground (arith, eq_iff "*" "connect"))

  double_other : lookup (strjoinv ("" ∷ "meta" ∷ "**" ∷ [])) table ≡ []
  double_other =
      lookup-other "" ("meta" ∷ "**" ∷ []) (λ e. ground arith) (tt, (meta_plain, (stars_plain, tt)))
        (λ e. ground (arith, eq_iff "**" "handshake")) (λ e. ground (arith, eq_iff "**" "connect"))

  all_other : lookup (strjoinv ("" ∷ "**" ∷ [])) table ≡ []
  all_other =
      lookup-other "" ("**" ∷ []) (λ e. ground arith) (tt, (stars_plain, tt)) (λ e. ground arith)
        (λ e. ground arith)

  heard :
      (channel name : String) (s : Subscription)
      → strsplit channel ≡ parts name
      → channel_is_wildcard channel ≡ done false
      → lookup channel table ≡ s ∷ []
      → listener_get g table channel ≡ done (s ∷ [])
  heard channel name s e h found =
      listener_get-lookups g table channel h
      ∙ rw
          (
            matched-parts channel name e,
            joined channel name e,
            single_other,
            double_other,
            all_other,
            found,
          )
          refl

  -- On a client that `cometd_new` made, a message on the handshake channel is heard by the handler
  -- of handshake responses alone, and one on the connect channel by that of connect responses alone,
  -- where splitting these two channels at "/" gives their three parts.
  pub cometd_new-hears :
      (Node : Type 0)
      → (listener_get g (cometd_new {Node = Node}).subscriptions channel_meta_handshake
          ≡ done (on_handshake ∷ []))
        × (listener_get g (cometd_new {Node = Node}).subscriptions channel_meta_connect
            ≡ done (on_connect ∷ []))
  unfolding channel_is_wildcard lookup
  cometd_new-hears Node = (
    ap (λ t. listener_get g t channel_meta_handshake) (subscriptions-table Node)
        ∙ heard channel_meta_handshake "handshake" on_handshake handshake_split refl refl,
    ap (λ t. listener_get g t channel_meta_connect) (subscriptions-table Node)
        ∙ heard channel_meta_connect "connect" on_connect connect_split refl refl,
  )
