-- ===== src/Client/Online.antt =====
-- The handshake with a server that answers.
use c_cometd_client.Prelude.{
  ℕ, suc, ◌+◌, ◌%◌, ◌^◌, ◌≡◌, ◌∙◌, refl, ap, String, Bool-cases, inl, inr, true, false, Option,
  none, some, [], ◌∷◌, ℤ, pos, is_minus_one, List, leb, ◌&&◌, if◌then◌else◌, done, Cmd,
  and_then_step, pure,
}
use c_cometd_client.Libs.Json.{JsonLaws, object}
use c_cometd_client.Conn.Types.{Code, success, Transport, Advice}
use c_cometd_client.Conn.{handshake_success, connected, conn_is_state, conn_state}
use c_cometd_client.State.Types.{Subscription, gthread, process_handshake}
use c_cometd_client.State.{Env, put_conn, performed}
use c_cometd_client.Msg.{
  channel_meta_handshake, msg_channel, msg_is_successful, msg_client_id, msg_advice,
  msg_supported_connection_types, msg_wrap, next_id,
}
use c_cometd_client.Event.{listener_get}
use c_cometd_client.Transport.{transport_negotiate}
use c_cometd_client.Backoff.{get_backoff}
use c_cometd_client.Http.Answers.{concat, request, answered, http_post_msg-answers}
use c_cometd_client.Ext.Firing.{ext_fire-nil}
use c_cometd_client.Messages.{handshake_object, new_handshake_message}
use c_cometd_client.Client.{
  W, in_state, should_handshake, run_callback, process_msg, process_all, process_sync,
  receive_payload, send_msg_sync, impl_handshake, handshake_round, handshake_loop, handshake,
}
use c_cometd_client.Client.Waiting.{loop_wait-gthread}
use c_cometd_client.Client.Process.{handshake_result, run_process_handshake-result}
use c_cometd_client.Client.Dispatch.{process_msg-alone}

module _ (env : Env) (laws : JsonLaws env.json) where
  open env use {json}
  open json use {Node, take_array, get_elements}

  -- A payload of one successful response is successful.
  pub msg_is_successful-take_array :
      (msg : Node)
      → json.node_type msg ≡ object
      → msg_is_successful json (take_array (msg ∷ [])) ≡ msg_is_successful json msg
  unfolding msg_is_successful
  msg_is_successful-take_array msg e = simp (laws.type-take_array, laws.get-take_array, e)

  -- A payload of one successful response that is processed with success.
  receive_payload-alone :
      (inner : Cmd (W env) Code) (payload msg : Node) (w w' : W env)
      → get_elements payload ≡ msg ∷ []
      → process_msg env inner msg w ≡ done ((success, msg), w')
      → msg_is_successful json (take_array (msg ∷ [])) ≡ true
      → receive_payload env inner (some payload) w ≡ done (success, w')
  unfolding process_sync process_all
  receive_payload-alone inner payload msg w w' alone run ok = rw (alone, run, ok) refl

  -- The message of the next handshake, and the client that has built it.
  abbrev pub greeting : W env → Node
  greeting w =
      json.take_object
        (handshake_object json (pos (w.h.conn.msg_id_seed + 1)) w.h.config.transports)

  abbrev pub greeted : W env → W env
  greeted w = put_conn w (record w.h.conn { msg_id_seed = w.h.conn.msg_id_seed + 1 })

  -- The client has no extension and no advice, waits by usleep, and hears handshake responses with its own
  -- handler alone; the server answers the next handshake with one successful response, which names a
  -- client id, a transport that is registered, and perhaps advice.
  pub record IsWelcome (w : W env) (body : String) (t : Transport) (id : String)
      (advice : Option Advice) : Type 0 where
    pub no_exts : w.h.exts ≡ []
    pub waits : w.h.loop.wait ≡ some gthread
    pub no_advice : w.h.conn.advice ≡ none
    pub idle : in_state env (handshake_success + connected) w ≡ false
    pub handler : Subscription
    pub handles : handler.callback ≡ process_handshake
    pub heard :
        listener_get env.strings w.h.subscriptions channel_meta_handshake ≡ done (handler ∷ [])
    pub chunk : String
    pub chunks : List String
    pub code : ℕ
    pub payload : Node
    pub msg : Node
    pub printed : json.to_data (some (msg_wrap json (greeting w))) ≡ some body
    pub replied : env.perform w.posts (request env w body) ≡ performed true code (chunk ∷ chunks)
    pub code_ok : (leb 200 code && leb code 299) ≡ true
    pub loaded : json.load_from_data (concat (chunk ∷ chunks)) ≡ some payload
    pub alone : get_elements payload ≡ msg ∷ []
    pub is_obj : json.node_type msg ≡ object
    pub channel : msg_channel json (some msg) ≡ some channel_meta_handshake
    pub ok : msg_is_successful json msg ≡ true
    pub chosen :
        transport_negotiate w.h.config.transports (msg_supported_connection_types json msg)
        ≡ done (some t)
    pub named : msg_client_id json msg ≡ done (some id)
    pub read : msg_advice json msg ≡ done advice

  -- The client after the response.
  abbrev pub welcomed : W env → String → Transport → String → Option Advice → W env
  welcomed w body t id advice =
      let w₁ = answered env (greeted w) body in
      put_conn w₁ (handshake_result w₁.h.conn (some t) (some id) advice)

  module _ (inner : Cmd (W env) Code) (w : W env) (body : String) (t : Transport) (id : String)
      (advice : Option Advice) (p : IsWelcome w body t id advice) where
    process_msg-welcomed :
        process_msg env inner p.msg (answered env (greeted w) body)
        ≡ done ((success, p.msg), welcomed w body t id advice)
    unfolding run_callback
    process_msg-welcomed =
        let w₁ = answered env (greeted w) body in
        process_msg-alone env inner p.msg channel_meta_handshake p.handler w₁
          (welcomed w body t id advice) success p.no_exts p.channel p.heard
          (ap (λ c. run_callback env inner p.msg c w₁) p.handles
            ∙ run_process_handshake-result env p.msg w₁ (some t) id advice p.chosen (λ u e. p.named)
                p.read)

    send_msg_sync-welcomed :
        send_msg_sync env inner (greeting w) none (greeted w)
        ≡ done (success, welcomed w body t id advice)
    unfolding send_msg_sync
    send_msg_sync-welcomed =
        and_then_step _ (ext_fire-nil env w.h.exts false (greeting w) (greeted w) p.no_exts)
        ∙ and_then_step (receive_payload env inner) (
            http_post_msg-answers env (msg_wrap json (greeting w)) p.payload body p.chunk p.chunks
              p.code (greeted w) p.printed p.replied p.code_ok p.loaded)
        ∙ receive_payload-alone inner p.payload p.msg (answered env (greeted w) body)
            (welcomed w body t id advice) p.alone process_msg-welcomed
            (msg_is_successful-take_array p.msg p.is_obj ∙ p.ok)

    impl_handshake-welcomed :
        impl_handshake env inner w ≡ done (success, welcomed w body t id advice)
    unfolding impl_handshake new_handshake_message next_id
    impl_handshake-welcomed = and_then_step _ send_msg_sync-welcomed

    settled : should_handshake env (welcomed w body t id advice) ≡ false
    unfolding should_handshake conn_is_state conn_state
    settled = refl

    wants_first : should_handshake env w ≡ true
    unfolding should_handshake
    wants_first = simp (p.idle, p.no_advice)

    rounds_after :
        (fuel attempt : ℕ) (backoff : ℤ)
        → handshake_loop env inner (suc fuel) attempt backoff success (welcomed w body t id advice)
          ≡ done (success, welcomed w body t id advice)
    unfolding handshake_loop
    rounds_after fuel attempt backoff = rw settled refl

    first_round :
        (fuel : ℕ)
        → handshake_round env inner (handshake_loop env inner (suc fuel)) 1 (pos 0) w
          ≡ done (success, welcomed w body t id advice)
    unfolding handshake_round
    first_round fuel =
        and_then_step _ (loop_wait-gthread env (pos 0) w p.waits)
        ∙ and_then_step (after_attempt fuel) impl_handshake-welcomed
        ∙ either (get_backoff w.h.config advice 1)
      where
        after_attempt : ℕ → Code → Cmd (W env) Code
        after_attempt fuel code w =
            let backoff = get_backoff w.h.config w.h.conn.advice 1 in
            (if is_minus_one backoff
                then pure code
                else handshake_loop env inner (suc fuel) ((1 + 1) % 2 ^ 32) backoff code)
              w

        either :
            (backoff : ℤ)
            → (if is_minus_one backoff
                  then pure success
                  else handshake_loop env inner (suc fuel) ((1 + 1) % 2 ^ 32) backoff success)
                (welcomed w body t id advice)
              ≡ done (success, welcomed w body t id advice)
        either backoff = elim (Bool-cases (is_minus_one backoff)) [
          | inl ends ↦ rw ends refl
          | inr goes ↦ rw goes (rounds_after fuel ((1 + 1) % 2 ^ 32) backoff)
        ]

  -- A client has no extension and no advice, waits by usleep, is neither in the state handshake
  -- success nor connected, and hears handshake responses with its own handler alone. Its server
  -- answers the next handshake with a status from 200 to 299 and one successful response, which
  -- names a client id and a registered transport and has advice that can be read, or none. Then the
  -- handshake ends with success, in one attempt: the client is in the state handshake success with
  -- that transport and id, the response's advice is its advice, and what else changes are the seed
  -- of the ids and the requests, each by one.
  pub handshake-welcomed :
      (fuel : ℕ) (w : W env) (body : String) (t : Transport) (id : String) (advice : Option Advice)
      → IsWelcome w body t id advice
      → handshake env (suc (suc fuel)) w ≡ done (success, welcomed w body t id advice)
  unfolding handshake handshake_loop
  handshake-welcomed fuel w body t id advice p =
      rw (wants_first (handshake env (suc fuel)) w body t id advice p)
        (first_round (handshake env (suc fuel)) w body t id advice p fuel)
