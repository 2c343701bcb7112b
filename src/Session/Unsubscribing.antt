-- ===== src/Session/Unsubscribing.antt =====
-- `cometd_unsubscribe` of a subscription, with and without a request to the server.
use c_cometd_client.Prelude.{
  ℕ, ◌≡◌, ◌≢◌, ◌⊎◌, ◌∙◌, refl, String, Bool-cases, inl, inr, true, false, some, ◌+◌, pos, arith,
  if◌then◌else◌, done, ne→==,
}
use c_cometd_client.Libs.Json.{JsonLaws}
use c_cometd_client.Conn.Types.{success, unknown}
use c_cometd_client.State.Types.{Subscription}
use c_cometd_client.State.{Env}
use c_cometd_client.Msg.{msg_is_successful, next_id, channel_meta_unsubscribe, subscription_field}
use c_cometd_client.Event.{listener_count}
use c_cometd_client.Http.Answers.{answered}
use c_cometd_client.Messages.{base_object, new_unsubscribe_message}
use c_cometd_client.Client.{W}
use c_cometd_client.Session.{
  is_meta_channel, transport_long_polling, transport_send, last_remote, unsubscribe,
}
use c_cometd_client.Session.Subscribing.{removed, undelivered, unsubscribe-removed}
use c_cometd_client.Session.Answering.{IsAnswered, response_code, send_over-answers}

module _ (env : Env) (fuel : ℕ) where
  -- A subscription to a meta channel, or one that is not the only one of its channel, is removed without
  -- a request; nothing else changes, and the code is success.
  pub unsubscribe-local :
      (s : Subscription) (w : W env)
      → (is_meta_channel s.channel ≡ true) ⊎ (listener_count w.h.subscriptions s.channel ≢ 1)
      → unsubscribe env fuel (some s) w ≡ done (success, removed env s w)
  unsubscribe-local s w local =
      unsubscribe-removed env fuel s unknown w w (rw (no_request local) refl)
    where
      no_request :
          (is_meta_channel s.channel ≡ true) ⊎ (listener_count w.h.subscriptions s.channel ≢ 1)
          → last_remote env fuel s.channel w ≡ false
      no_request (inl meta) = rw meta refl
      no_request (inr more) = ground (arith, ne→== _ _ more)

module _ (env : Env) (laws : JsonLaws env.json) (fuel : ℕ) where
  open env use {json}

  -- The message that `cometd_unsubscribe` builds from the client.
  abbrev pub withdrawal : String → W env → json.Node
  withdrawal channel w = json.take_object (
      json.set_string_member
        (base_object json (pos (w.h.conn.msg_id_seed + 1)) channel_meta_unsubscribe
          w.h.conn.client_id)
        subscription_field (some channel))

  -- The only subscription of a channel that is no meta channel, over long polling, with no extension and
  -- a server that answers the unsubscribe message with a status from 200 to 299 and one response on a
  -- channel on which nothing is subscribed: one request is made, and the code is success. The
  -- subscription stays in the table where the response is a successful one, and is removed where it is
  -- not; else only the seed of the ids changes.
  pub unsubscribe-answers :
      (s : Subscription) (w : W env) (body : String) (response : json.Node)
      → is_meta_channel s.channel ≡ false
      → listener_count w.h.subscriptions s.channel ≡ 1
      → w.h.conn.transport ≡ some transport_long_polling
      → IsAnswered env laws (undelivered env w w.posts) (withdrawal s.channel w) body response
      → unsubscribe env fuel (some s) w
        ≡ done (
          success,
          if msg_is_successful json response
              then answered env (undelivered env w w.posts) body
              else removed env s (answered env (undelivered env w w.posts) body),
        )
  unfolding new_unsubscribe_message next_id transport_send
  unsubscribe-answers s w body response no_meta only e p =
      let w₁ = answered env (undelivered env w w.posts) body in
      let asked : last_remote env fuel s.channel w ≡ true = rw (no_meta, only) refl in
      unsubscribe-removed env fuel s (response_code env laws response) w w₁ (
        rw asked (
          send_over-answers env laws fuel w.h.conn.transport (undelivered env w w.posts)
            (withdrawal s.channel w) body response e p))
      ∙ elim (Bool-cases (msg_is_successful json response)) [
        | inl ok ↦ simp ok
        | inr fails ↦ simp fails
      ]
