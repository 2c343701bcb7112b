-- ===== src/Session/Subscribing.antt =====
-- `cometd_subscribe`, `cometd_unsubscribe` and `cometd_publish`: what each leaves behind on the client,
-- when the server answers and when it cannot be reached.
use c_cometd_client.Prelude.{
  ℕ, ◌+◌, ◌≡◌, refl, ap, ◌∙◌, String, Bool-cases, false, Option, none, some, List, [], inl, inr,
  pos, if◌then◌else◌, done, Cmd, and_then,
}
use c_cometd_client.Conn.Types.{Code, success, is_success, Transport}
use c_cometd_client.State.Types.{Callback, Subscription}
use c_cometd_client.State.{Env, Post}
use c_cometd_client.Msg.{msg_wrap, next_id, channel_meta_subscribe, subscription_field}
use c_cometd_client.Event.{listener_remove}
use c_cometd_client.Http.Failures.{IsUnreachable, transport_long_polling_send-fails}
use c_cometd_client.Messages.{base_object, new_publish_message, new_subscribe_message}
use c_cometd_client.Client.{W, send_msg_sync, run_send, handshake}
use c_cometd_client.Ext.Firing.{ext_fire-nil}
use c_cometd_client.Session.{
  is_meta_channel, transport_long_polling, add_listener, remove_listener, send_over, transport_send,
  publish, subscribe, unsubscribe_remote, last_remote, finish_unsubscribe, unsubscribe,
}

module _ (env : Env) where
  -- The client without the subscription.
  abbrev pub removed : Subscription → W env → W env
  removed s w = record w {
    h = record w.h { subscriptions = (listener_remove w.h.subscriptions (some s)).0 };
  }

  -- The world after a message that was built and not delivered.
  abbrev pub undelivered : W env → List Post → W env
  undelivered w posts = record w {
    h = record w.h { conn = record w.h.conn { msg_id_seed = w.h.conn.msg_id_seed + 1 } };
    posts = posts;
  }

module _ (env : Env) (fuel : ℕ) where
  open env use {json}
  open json use {Node}

  remove_listener-removed :
      (s : Subscription) (w : W env)
      → remove_listener env (some s) w ≡ done (success, removed env s w)
  unfolding remove_listener listener_remove
  remove_listener-removed s w = refl

  finish_unsubscribe-removed :
      (s : Subscription) (code : Code) (w : W env)
      → finish_unsubscribe env fuel s code w
        ≡ done (success, if is_success code then w else removed env s w)
  finish_unsubscribe-removed s success w = refl
  finish_unsubscribe-removed s code w = remove_listener-removed s w

  -- Where the request that `cometd_unsubscribe` makes ends with a code (unknown, without a request,
  -- for a meta channel or a subscription that is not the only one of its channel), the unsubscribing ends
  -- with success. The subscription is removed where that code is not success, and stays in the table
  -- where it is.
  pub unsubscribe-removed :
      (s : Subscription) (code : Code) (w w' : W env)
      → unsubscribe_remote env fuel (last_remote env fuel s.channel w) s.channel w ≡ done (code, w')
      → unsubscribe env fuel (some s) w
        ≡ done (success, if is_success code then w' else removed env s w')
  unfolding unsubscribe
  unsubscribe-removed s code w w' run =
      ap (λ o. and_then o (finish_unsubscribe env fuel s)) run
      ∙ finish_unsubscribe-removed s code w'

  module _ (unreachable : IsUnreachable env) where
    send_msg_sync-fails :
        (inner : Cmd (W env) Code) (msg : Node) (w : W env)
        → w.h.exts ≡ []
        → (posts : List Post) × (send_msg_sync env inner msg (some transport_long_polling) w
            ≡ done (w.h.last_error.code, record w { posts = posts }))
    unfolding send_msg_sync run_send
    send_msg_sync-fails inner msg w none_there =
        let (posts, run) =
          transport_long_polling_send-fails env unreachable (msg_wrap json msg) w in
        (posts, rw (ext_fire-nil env w.h.exts false msg w none_there, run))

    send_over-fails :
        (t : Option Transport) (msg : Node) (w : W env)
        → t ≡ some transport_long_polling
        → w.h.exts ≡ []
        → (posts : List Post) × (send_over env fuel t msg w
            ≡ done (w.h.last_error.code, record w { posts = posts }))
    send_over-fails t msg w e none_there =
        let (posts, run) = send_msg_sync-fails (handshake env fuel) msg w none_there in
        (posts, rw e run)

    -- Over long polling, with no extension and a server that cannot be reached, `cometd_publish` gives
    -- the code of the last error as it was before, which is success where nothing failed yet; only the
    -- seed of the ids and the requests change.
    pub publish-fails :
        (channel : String) (message : Node) (w : W env)
        → w.h.conn.transport ≡ some transport_long_polling
        → w.h.exts ≡ []
        → (posts : List Post) × (publish env fuel channel message w
            ≡ done (w.h.last_error.code, undelivered env w posts))
    unfolding publish new_publish_message next_id transport_send
    publish-fails channel message w e none_there =
        send_over-fails w.h.conn.transport _ (undelivered env w w.posts) e none_there

    -- Over long polling, with no extension and a server that cannot be reached, `cometd_subscribe`
    -- to a channel that is no meta channel adds the listener, although the server does not learn of
    -- it, where the last error is success, and gives NULL where it is not.
    pub subscribe-fails :
        (channel : String) (handler : Callback) (w : W env)
        → is_meta_channel channel ≡ false
        → w.h.conn.transport ≡ some transport_long_polling
        → w.h.exts ≡ []
        → (posts : List Post) × (subscribe env fuel channel handler w ≡ (
            if is_success w.h.last_error.code
            then add_listener env channel handler (undelivered env w posts)
            else done (none, undelivered env w posts)))
    unfolding subscribe new_subscribe_message next_id transport_send
    subscribe-fails channel handler w no_meta e none_there =
        let obj =
          base_object json (pos (w.h.conn.msg_id_seed + 1)) channel_meta_subscribe
            w.h.conn.client_id in
        let node =
          json.take_object (json.set_string_member obj subscription_field (some channel)) in
        let (posts, run) =
          send_over-fails w.h.conn.transport node (undelivered env w w.posts) e none_there in
        (posts, rw (no_meta, run) (added posts))
      where
        added :
            (posts : List Post)
            → (if is_success w.h.last_error.code
                  then add_listener env channel handler
                  else (λ w'. done (none, w')))
                (undelivered env w posts)
              ≡ (if is_success w.h.last_error.code
                  then add_listener env channel handler (undelivered env w posts)
                  else done (none, undelivered env w posts))
        added posts = elim (Bool-cases (is_success w.h.last_error.code)) [
          | inl ok ↦ simp ok
          | inr fails ↦ simp fails
        ]
