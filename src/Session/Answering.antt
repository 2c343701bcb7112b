-- ===== src/Session/Answering.antt =====
-- `cometd_publish` and `cometd_subscribe` over long polling, with a server that answers the request.
use c_cometd_client.Prelude.{
  ℕ, ◌+◌, ◌≡◌, refl, ap, ◌∙◌, String, Bool-cases, inl, inr, true, false, Option, none, some, List,
  [], ◌∷◌, pos, if◌then◌else◌, done, Cmd, and_then_step, and_then-reads, leb, ◌&&◌,
}
use c_cometd_client.Libs.Json.{JsonLaws, object}
use c_cometd_client.Conn.Types.{Code, success, unsuccessful, is_success, Transport}
use c_cometd_client.State.Types.{Callback}
use c_cometd_client.State.{Env, performed}
use c_cometd_client.Msg.{
  msg_wrap, msg_channel, msg_is_successful, next_id, channel_meta_subscribe, subscription_field,
  data_field,
}
use c_cometd_client.Event.{listener_get, is_subscribed, fire_loop, listener_fire}
use c_cometd_client.Http.Answers.{concat, request, answered, transport_long_polling_send-answers}
use c_cometd_client.Messages.{base_object, new_publish_message, new_subscribe_message}
use c_cometd_client.Client.{
  W, run_callback, process_msg, process_all, process_sync, receive_payload, run_send, send_msg_sync,
  handshake,
}
use c_cometd_client.Client.Online.{msg_is_successful-take_array}
use c_cometd_client.Ext.Firing.{ext_fire-nil}
use c_cometd_client.Session.{
  is_meta_channel, transport_long_polling, add_listener, send_over, transport_send, publish,
  subscribe,
}
use c_cometd_client.Session.Subscribing.{undelivered}

module _ (env : Env) (laws : JsonLaws env.json) where
  open env use {json}
  open json use {Node, take_array, get_elements}

  -- The client has no extension, and the server answers a request for `msg` with a status from 200 to
  -- 299 and one response, an object on a channel on which nothing is subscribed.
  pub record IsAnswered (w : W env) (msg : Node) (body : String) (response : Node) : Type 0 where
    pub no_exts : w.h.exts ≡ []
    pub chunk : String
    pub chunks : List String
    pub code : ℕ
    pub payload : Node
    pub channel : String
    pub printed : json.to_data (some (msg_wrap json msg)) ≡ some body
    pub replied : env.perform w.posts (request env w body) ≡ performed true code (chunk ∷ chunks)
    pub code_ok : (leb 200 code && leb code 299) ≡ true
    pub loaded : json.load_from_data (concat (chunk ∷ chunks)) ≡ some payload
    pub alone : get_elements payload ≡ response ∷ []
    pub is_obj : json.node_type response ≡ object
    pub named : msg_channel json (some response) ≡ some channel
    pub unheard : listener_get env.strings w.h.subscriptions channel ≡ done []

  -- The code of a request by its response.
  abbrev pub response_code : Node → Code
  response_code response = if msg_is_successful json response then success else unsuccessful

  module _ (inner : Cmd (W env) Code) where
    process_msg-unheard :
        (msg : Node) (channel : String) (w : W env)
        → w.h.exts ≡ []
        → msg_channel json (some msg) ≡ some channel
        → listener_get env.strings w.h.subscriptions channel ≡ done []
        → process_msg env inner msg w ≡ done ((success, msg), w)
    unfolding process_msg listener_fire fire_loop
    process_msg-unheard msg channel w none_there named unheard =
        and_then_step _ (ext_fire-nil env w.h.exts true msg w none_there)
        ∙ and_then_step _ (
            ap
              (λ c.
                listener_fire (run_callback env inner msg) env.strings
                  (λ (w : W env). w.h.subscriptions) c w)
              named
            ∙ and_then-reads (λ (w : W env). listener_get env.strings w.h.subscriptions channel) w
                []
                (fire_loop (λ w s. is_subscribed w.h.subscriptions s) (run_callback env inner msg))
                unheard)

    receive_payload-unheard :
        (payload response : Node) (channel : String) (w : W env)
        → get_elements payload ≡ response ∷ []
        → json.node_type response ≡ object
        → w.h.exts ≡ []
        → msg_channel json (some response) ≡ some channel
        → listener_get env.strings w.h.subscriptions channel ≡ done []
        → receive_payload env inner (some payload) w ≡ done (response_code response, w)
    unfolding process_sync process_all
    receive_payload-unheard payload response channel w alone is_obj none_there named unheard =
        rw
          (
            alone,
            process_msg-unheard response channel w none_there named unheard,
            msg_is_successful-take_array env laws response is_obj,
          )
          refl

    send_msg_sync-answers :
        (w : W env) (msg : Node) (body : String) (response : Node)
        → IsAnswered w msg body response
        → send_msg_sync env inner msg (some transport_long_polling) w
          ≡ done (response_code response, answered env w body)
    unfolding send_msg_sync run_send
    send_msg_sync-answers w msg body response p =
        and_then_step _ (ext_fire-nil env w.h.exts false msg w p.no_exts)
        ∙ and_then_step (receive_payload env inner) (
            transport_long_polling_send-answers env (msg_wrap json msg) p.payload body p.chunk
              p.chunks p.code w p.printed p.replied p.code_ok p.loaded)
        ∙ receive_payload-unheard p.payload response p.channel (answered env w body) p.alone
            p.is_obj p.no_exts p.named p.unheard

  module _ (fuel : ℕ) where
    pub send_over-answers :
        (t : Option Transport) (w : W env) (msg : Node) (body : String) (response : Node)
        → t ≡ some transport_long_polling
        → IsAnswered w msg body response
        → send_over env fuel t msg w ≡ done (response_code response, answered env w body)
    send_over-answers t w msg body response e p =
        ap (λ t. send_over env fuel t msg w) e
        ∙ send_msg_sync-answers (handshake env fuel) w msg body response p

    -- The message that `cometd_publish` builds from the client and the application's data.
    abbrev pub publication : String → Node → W env → Node
    publication channel message w = json.take_object (
        json.set_member
          (base_object json (pos (w.h.conn.msg_id_seed + 1)) channel w.h.conn.client_id) data_field
          message)

    -- Over long polling, with no extension and a server that answers the message with a status from 200
    -- to 299 and one response on a channel on which nothing is subscribed, `cometd_publish` makes one
    -- request, and its code is success where the response is a successful one and unsuccessful where it
    -- is not. Else only the seed of the ids changes.
    pub publish-answers :
        (channel : String) (message : Node) (w : W env) (body : String) (response : Node)
        → w.h.conn.transport ≡ some transport_long_polling
        → IsAnswered (undelivered env w w.posts) (publication channel message w) body response
        → publish env fuel channel message w
          ≡ done (response_code response, answered env (undelivered env w w.posts) body)
    unfolding publish new_publish_message next_id transport_send
    publish-answers channel message w body response e p =
        send_over-answers w.h.conn.transport (undelivered env w w.posts)
          (publication channel message w) body response e p

    -- The message that `cometd_subscribe` builds from the client.
    abbrev pub subscribing : String → W env → Node
    subscribing channel w = json.take_object (
        json.set_string_member
          (base_object json (pos (w.h.conn.msg_id_seed + 1)) channel_meta_subscribe
            w.h.conn.client_id)
          subscription_field (some channel))

    -- The same server and client: `cometd_subscribe` to a channel that is no meta channel adds the
    -- listener where the response is a successful one, and gives NULL and adds none where it is not.
    pub subscribe-answers :
        (channel : String) (handler : Callback) (w : W env) (body : String) (response : Node)
        → is_meta_channel channel ≡ false
        → w.h.conn.transport ≡ some transport_long_polling
        → IsAnswered (undelivered env w w.posts) (subscribing channel w) body response
        → subscribe env fuel channel handler w ≡ (
            if msg_is_successful json response
            then add_listener env channel handler (answered env (undelivered env w w.posts) body)
            else done (none, answered env (undelivered env w w.posts) body))
    unfolding subscribe new_subscribe_message next_id transport_send
    subscribe-answers channel handler w body response no_meta e p =
        rw
          (
            no_meta,
            send_over-answers w.h.conn.transport (undelivered env w w.posts) (subscribing channel w)
                body response e p,
          )
          added
      where
        added :
            (if is_success (response_code response)
                then add_listener env channel handler
                else (λ w'. done (none, w')))
              (answered env (undelivered env w w.posts) body)
            ≡ (if msg_is_successful json response
                then add_listener env channel handler
                    (answered env (undelivered env w w.posts) body)
                else done (none, answered env (undelivered env w w.posts) body))
        added = elim (Bool-cases (msg_is_successful json response)) [
          | inl ok ↦ simp ok
          | inr fails ↦ simp fails
        ]
