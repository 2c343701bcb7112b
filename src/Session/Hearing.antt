-- ===== src/Session/Hearing.antt =====
-- A subscription that the server accepted, from `cometd_subscribe` to the messages of its channel.
use mathlib.Core.List.{Memᴰ}
use mathlib.Core.List.Memᴰ
use c_cometd_client.Prelude.{
  ℕ, suc, ◌≤◌, ◌≡◌, ◌∙◌, refl, sym, subst, ◌↔◌, String, true, false, some, List, [], ◌∷◌, ◌++◌,
  length, done, eq_refl,
}
use c_cometd_client.Libs.Json.{JsonLaws}
use c_cometd_client.Libs.Strings.{GStrings, GStringLaws}
use c_cometd_client.State.Types.{Callback, Subscription, Listeners}
use c_cometd_client.State.{Env}
use c_cometd_client.Msg.{msg_is_successful}
use c_cometd_client.Channel.{channel_is_wildcard}
use c_cometd_client.Channel.Patterns.{Matches}
use c_cometd_client.Event.Table.{lookup, lookup-insert}
use c_cometd_client.Event.{subscription, fits, listener_add, listener_get}
use c_cometd_client.Event.WellFormed.{IsWellFormed, listener_add-IsWellFormed}
use c_cometd_client.Event.Matching.{listener_get-Matches_iff}
use c_cometd_client.Http.Answers.{answered}
use c_cometd_client.Client.{W}
use c_cometd_client.Session.{is_meta_channel, transport_long_polling, add_listener, subscribe}
use c_cometd_client.Session.Subscribing.{undelivered}
use c_cometd_client.Session.Answering.{IsAnswered, subscribing, subscribe-answers}

-- A channel that is not too long gets the new subscription at the end of its list.
listener_add-fits :
    (t : Listeners) (n : ℕ) (channel : String) (cb : Callback)
    → fits channel ≡ true
    → ((listener_add t n channel cb).1 ≡ some (subscription n channel cb))
      × (lookup channel (listener_add t n channel cb).0
          ≡ lookup channel t ++ subscription n channel cb ∷ [])
unfolding listener_add
listener_add-fits t n channel cb h = (rw h, rw (h, lookup-insert channel channel, eq_refl channel))

-- It gets the messages of exactly the channels that its own matches.
listener_add-hears :
    (g : GStrings) (laws : GStringLaws g) (n : ℕ) (t : Listeners) (channel on : String)
    (cb : Callback)
    → IsWellFormed n t
    → fits channel ≡ true
    → channel_is_wildcard on ≡ done false
    → length (g.strsplit on) ≤ 254
    → (list : List Subscription) × (listener_get g (listener_add t n channel cb).0 on ≡ done list)
      × (Memᴰ (subscription n channel cb) list ↔ Matches (g.strsplit channel) (g.strsplit on))
listener_add-hears g laws n t channel on cb well short plain few =
    let new = subscription n channel cb in
    let (list, run, heard) =
      listener_get-Matches_iff g laws (suc n) (listener_add t n channel cb).0 on
        (listener_add-IsWellFormed n t channel cb well) plain few in
    let stands : Memᴰ new (lookup channel (listener_add t n channel cb).0) =
      subst (λ l. Memᴰ new l) (sym (listener_add-fits t n channel cb short).1)
        (Memᴰ.append_right (lookup channel t) (Memᴰ.head refl)) in
    (list, run, (λ m. ((heard new).0 m).1, λ m. (heard new).1 (stands, m)))

-- The client with the new subscription.
abbrev pub subscribed : (env : Env) → String → Callback → W env → W env
subscribed env channel handler w = record w {
  h = record w.h { subscriptions = (listener_add w.h.subscriptions w.allocated channel handler).0 };
  allocated = suc w.allocated;
}

module _ (env : Env) (json_laws : JsonLaws env.json) (laws : GStringLaws env.strings)
    (fuel : ℕ) where
  open env use {json, strings}
  open strings use {strsplit}

  -- Over long polling, with no extension and a server that answers the subscribe message with a status
  -- from 200 to 299 and one successful response on a channel on which nothing is subscribed,
  -- `cometd_subscribe` of a client whose table meets the invariant gives a subscription with the channel
  -- and the handler asked for, where the channel is no meta channel, not empty and not too long. The
  -- table meets the invariant afterwards, and a message on a channel (no wildcard, at most 254 parts)
  -- gets to the subscription exactly if the subscription's channel matches it.
  pub subscribe-hears :
      (channel on body : String) (handler : Callback) (w : W env) (response : json.Node)
      → IsWellFormed w.allocated w.h.subscriptions
      → is_meta_channel channel ≡ false
      → fits channel ≡ true
      → w.h.conn.transport ≡ some transport_long_polling
      → IsAnswered env json_laws
          (undelivered env w w.posts)
          (subscribing env json_laws fuel channel w)
          body
          response
      → msg_is_successful json response ≡ true
      → channel_is_wildcard on ≡ done false
      → length (strsplit on) ≤ 254
      → (s : Subscription) × (w' : W env) × (subscribe env fuel channel handler w
          ≡ done (some s, w'))
        × (s.channel ≡ channel)
        × (s.callback ≡ handler)
        × IsWellFormed w'.allocated w'.h.subscriptions
        × (list : List Subscription) × (listener_get strings w'.h.subscriptions on ≡ done list)
        × (Memᴰ s list ↔ Matches (strsplit channel) (strsplit on))
  unfolding add_listener
  subscribe-hears channel on body handler w response well no_meta short e p ok plain few =
      let t = w.h.subscriptions in
      let n = w.allocated in
      let (list, run, heard) =
        listener_add-hears strings laws n t channel on handler well short plain few in
      (
        subscription n channel handler,
        subscribed env channel handler (answered env (undelivered env w w.posts) body),
        subscribe-answers env json_laws fuel channel handler w body response no_meta e p
            ∙ rw (ok, (listener_add-fits t n channel handler short).0) refl,
        refl,
        refl,
        listener_add-IsWellFormed n t channel handler well,
        list,
        run,
        heard,
      )
