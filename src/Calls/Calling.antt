-- ===== src/Calls/Calling.antt =====
-- What the application calls.
use c_cometd_client.Prelude.{
  ℕ, zero, suc, refl, Bool, true, false, Option, none, some, String, List, [], ◌∷◌, Cmd, pure,
  Keeps, keeps_rules, Keeps-done, Keeps-bind, Keeps-modify, Keeps-if, Keeps-pure,
}
use c_cometd_client.Conn.Types.{Code, success, init_loop, Transport, is_success}
use c_cometd_client.Conn.{connected}
use c_cometd_client.State.Types.{
  Callback, LoopFunc, gthread, foreign_loop, Subscription, Opt, opt_url, opt_request_timeout,
  opt_loop, opt_backoff_increment, opt_max_backoff, Config,
}
use c_cometd_client.State.{Env}
use c_cometd_client.Event.{listener_add, listener_remove}
use c_cometd_client.Event.WellFormed.{listener_add-IsWellFormed, listener_remove-IsWellFormed}
use c_cometd_client.Client.{W}
use c_cometd_client.Session.{
  is_meta_channel, call_destroy, set_config, configure, add_listener, remove_listener, send_over,
  transport_send, publish, subscribe_remote, subscribe, unsubscribe_remote, finish_unsubscribe,
  unsubscribe, call_start, loop_start, start_result, start_loop, connect,
}
use c_cometd_client.Calls.Sound.{
  ConnSound-IsPreorder, is_connected, Sound, Sound-IsPreorder, unmoved,
}
use c_cometd_client.Calls.Ids.{
  on_conn-KeepsSound, new_publish_message-Keeps, new_subscribe_message-Keeps,
  new_unsubscribe_message-Keeps,
}
use c_cometd_client.Calls.Posting.{ForeignSound, error-Keeps}
use c_cometd_client.Calls.Processing.{send_msg_sync-Keeps, set_state-Sound}
use c_cometd_client.Calls.Handshaking.{handshake-Keeps}
use c_cometd_client.Calls.Listening.{gthread_run-Keeps, listen-Keeps, disconnect-Keeps}
use c_cometd_client.Calls.{
  Call, call_configure, call_add_listener, call_remove_listener, call_ext_add, call_handshake,
  call_connect, call_publish, call_subscribe, call_unsubscribe, call_listen, call_gthread_run,
  call_disconnect, discard, run_call, run_calls,
}

module _ (env : Env) (outside : ForeignSound env) where
  open env use {json}
  open json use {Node}

  call_destroy-Keeps : (f : Option LoopFunc) → Keeps Sound (call_destroy env f)
  call_destroy-Keeps none = search keeps_rules
  call_destroy-Keeps (some gthread) = search keeps_rules
  call_destroy-Keeps (some (foreign_loop n)) = outside.destroy n

  set_config-Keeps : (f : Config → Config) → Keeps Sound (set_config env f)
  set_config-Keeps f = Keeps-modify _ (λ w. unmoved _ _ refl refl refl refl)

  configure-Keeps : (opt : Opt) → Keeps Sound (configure env opt)
  unfolding configure
  configure-Keeps (opt_url url) = set_config-Keeps _
  configure-Keeps (opt_request_timeout t) = set_config-Keeps _
  configure-Keeps (opt_loop loop) = search (keeps_rules, call_destroy-Keeps, unmoved)
  configure-Keeps (opt_backoff_increment t) = set_config-Keeps _
  configure-Keeps (opt_max_backoff t) = set_config-Keeps _

  add_listener-Keeps :
      (channel : String) (cb : Callback) → Keeps Sound (add_listener env channel cb)
  unfolding add_listener
  add_listener-Keeps channel cb =
      Keeps-done _ (λ w. (listener_add w.h.subscriptions w.allocated channel cb).1) _ (λ w. refl)
        (λ w. record {
          conn = ConnSound-IsPreorder.same w.h.conn;
          table = listener_add-IsWellFormed w.allocated w.h.subscriptions channel cb;
          posted = ([], refl);
        })

  remove_listener-Keeps : (s : Option Subscription) → Keeps Sound (remove_listener env s)
  unfolding remove_listener
  remove_listener-Keeps s =
      Keeps-done _ (λ w. (listener_remove w.h.subscriptions s).1) _ (λ w. refl)
        (λ w. record {
          conn = ConnSound-IsPreorder.same w.h.conn;
          table = listener_remove-IsWellFormed w.allocated w.h.subscriptions s;
          posted = ([], refl);
        })

  module _ (fuel : ℕ) where
    send_over-Keeps : (t : Option Transport) (msg : Node) → Keeps Sound (send_over env fuel t msg)
    send_over-Keeps none msg = search keeps_rules
    send_over-Keeps (some t) msg =
        send_msg_sync-Keeps env outside _ (handshake-Keeps env outside fuel) msg (some t)

    transport_send-Keeps : (msg : Node) → Keeps Sound (transport_send env fuel msg)
    unfolding transport_send
    transport_send-Keeps msg = search (keeps_rules, send_over-Keeps)

    publish-Keeps : (channel : String) (msg : Node) → Keeps Sound (publish env fuel channel msg)
    unfolding publish
    publish-Keeps channel msg =
        search (keeps_rules, on_conn-KeepsSound, new_publish_message-Keeps, transport_send-Keeps)

    subscribe_remote-Keeps :
        (b : Bool) (channel : String) → Keeps Sound (subscribe_remote env fuel b channel)
    subscribe_remote-Keeps true channel = search keeps_rules
    subscribe_remote-Keeps false channel =
        search (keeps_rules, on_conn-KeepsSound, new_subscribe_message-Keeps, transport_send-Keeps)

    subscribe-Keeps :
        (channel : String) (cb : Callback) → Keeps Sound (subscribe env fuel channel cb)
    unfolding subscribe
    subscribe-Keeps channel cb =
        Keeps-bind _ _ (subscribe_remote-Keeps (is_meta_channel channel) channel) (λ code.
          Keeps-if (is_success code) (add_listener env channel cb) (pure none)
            (add_listener-Keeps channel cb) (Keeps-pure none))

    unsubscribe_remote-Keeps :
        (b : Bool) (channel : String) → Keeps Sound (unsubscribe_remote env fuel b channel)
    unsubscribe_remote-Keeps false channel = search keeps_rules
    unsubscribe_remote-Keeps true channel =
        search
          (keeps_rules, on_conn-KeepsSound, new_unsubscribe_message-Keeps, transport_send-Keeps)

    finish_unsubscribe-Keeps :
        (s : Subscription) (code : Code) → Keeps Sound (finish_unsubscribe env fuel s code)
    finish_unsubscribe-Keeps s success = search keeps_rules
    finish_unsubscribe-Keeps s code = remove_listener-Keeps (some s)

    unsubscribe-Keeps : (s : Option Subscription) → Keeps Sound (unsubscribe env fuel s)
    unfolding unsubscribe
    unsubscribe-Keeps none = search keeps_rules
    unsubscribe-Keeps (some s) =
        search (keeps_rules, unsubscribe_remote-Keeps, finish_unsubscribe-Keeps) depth 8

    call_start-Keeps : (f : LoopFunc) → Keeps Sound (call_start env fuel f)
    call_start-Keeps gthread =
        Keeps-done _ (λ w. 0) _ (λ w. refl) (λ w. unmoved _ _ refl refl refl refl)
    call_start-Keeps (foreign_loop n) = outside.start n

    loop_start-Keeps : Keeps Sound (loop_start env fuel)
    unfolding loop_start
    loop_start-Keeps = search (keeps_rules, call_start-Keeps)

    start_result-Keeps : (failed : ℕ) → Keeps Sound (start_result env fuel failed)
    start_result-Keeps zero = search (keeps_rules, set_state-Sound env connected is_connected)
    start_result-Keeps (suc n) = error-Keeps env init_loop _

    start_loop-Keeps : (code : Code) → Keeps Sound (start_loop env fuel code)
    start_loop-Keeps success = search (keeps_rules, loop_start-Keeps, start_result-Keeps)
    start_loop-Keeps code = search keeps_rules

    connect-Keeps : Keeps Sound (connect env fuel)
    unfolding connect
    connect-Keeps = search (keeps_rules, handshake-Keeps env outside, start_loop-Keeps)

    discard-Keeps :
        {A : Type 0} (m : Cmd (W env) A) → Keeps Sound m → Keeps Sound (discard env fuel m)
    discard-Keeps m h = search (keeps_rules, h)

    run_call-Keeps : (c : Call Node) → Keeps Sound (run_call env fuel c)
    unfolding run_call
    run_call-Keeps (call_configure opt) = configure-Keeps opt
    run_call-Keeps (call_add_listener channel cb) = discard-Keeps _ (add_listener-Keeps channel cb)
    run_call-Keeps (call_remove_listener s) = discard-Keeps _ (remove_listener-Keeps s)
    run_call-Keeps (call_ext_add ext) = Keeps-modify _ (λ w. unmoved _ _ refl refl refl refl)
    run_call-Keeps call_handshake = discard-Keeps _ (handshake-Keeps env outside fuel)
    run_call-Keeps call_connect = discard-Keeps _ connect-Keeps
    run_call-Keeps (call_publish channel msg) = discard-Keeps _ (publish-Keeps channel msg)
    run_call-Keeps (call_subscribe channel cb) = discard-Keeps _ (subscribe-Keeps channel cb)
    run_call-Keeps (call_unsubscribe s) = discard-Keeps _ (unsubscribe-Keeps s)
    run_call-Keeps (call_listen rounds) = listen-Keeps env outside fuel rounds
    run_call-Keeps (call_gthread_run rounds) = gthread_run-Keeps env outside fuel rounds
    run_call-Keeps (call_disconnect rounds b) =
        discard-Keeps _
          (disconnect-Keeps env outside _ (gthread_run-Keeps env outside fuel rounds) b)

    pub run_calls-Keeps : (calls : List (Call Node)) → Keeps Sound (run_calls env fuel calls)
    unfolding run_calls
    run_calls-Keeps [] = search keeps_rules
    run_calls-Keeps (c ∷ calls) = Keeps-bind _ _ (run_call-Keeps c) (λ u. run_calls-Keeps calls)
