-- ===== src/Session.antt =====
-- src/cometd.c, src/loop.c and src/loops/gthread.c: the handle's life, what the application calls, and
-- the receiving and the listening loop.
pub mod Subscribing
pub mod Answering
pub mod Hearing
pub mod Unsubscribing
pub mod Creating
pub mod Connecting
use Prim.Native.String.{String}
use text.Mathlib.Text.{starts_with}
use c_cometd_client.Prelude.{
  ℕ, zero, suc, ◌+◌, ◌%◌, ◌^◌, Bool, true, false, not, ◌&&◌, Option, none, some, List, [], ◌∷◌,
  ◌==◌, ℤ, pos, is_minus_one, if◌then◌else◌, Outcome, done, crash, starved, Cmd, pure, reads,
  modify, gets, non_null, ◌>>=◌, ◌>>◌,
}
use c_cometd_client.Libs.Json.{JsonGlib}
use c_cometd_client.Conn.Types.{
  Code, success, init_loop, unknown, is_success, Transport, RecvCallback, long_polling_send,
  long_polling_recv, foreign_recv, Advice,
}
use c_cometd_client.Conn.{
  uninitialized, disconnected, handshake_success, connected, disconnecting, unconnected, conn_new,
  advice_is_retry, conn_set_state,
}
use c_cometd_client.State.Types.{
  Callback, process_handshake, process_connect, Subscription, LoopFunc, gthread, foreign_loop, Loop,
  thread_unset, thread_running, Config, Opt, opt_url, opt_request_timeout, opt_loop,
  opt_backoff_increment, opt_max_backoff,
}
use c_cometd_client.State.{Cometd, World, Env, LastError, SysHandlers, put_conn, on_conn}
use c_cometd_client.Msg.{
  channel_meta_handshake, channel_meta_connect, msg_wrap, msg_bad_connect_new, msg_extract_connect,
}
use c_cometd_client.Event.{listener_add, listener_remove, listener_count}
use c_cometd_client.Backoff.{get_backoff}
use c_cometd_client.Transport.{register_transport}
use c_cometd_client.Http.{error, transport_long_polling_recv}
use c_cometd_client.Messages.{new_publish_message, new_subscribe_message, new_unsubscribe_message}
use c_cometd_client.Inbox.{inbox_push, inbox_take}
use c_cometd_client.Client.{
  W, in_state, process_msg, process_msg_null, send_msg_sync, loop_wait, handshake,
}

-- strncmp(channel, "/meta", 5) == 0
unfoldable pub is_meta_channel : String → Bool
is_meta_channel channel = starts_with channel "/meta"

abbrev pub transport_long_polling : Transport
transport_long_polling = record {
  name = "long-polling";
  send = long_polling_send;
  recv = long_polling_recv;
}

abbrev pub loop_gthread_new : Loop
loop_gthread_new = record {
  start = some gthread;
  stop = some gthread;
  wait = some gthread;
  destroy = some gthread;
  thread = thread_unset;
}

abbrev pub default_config : Config
default_config = record {
  url = "";
  backoff_increment = pos 1000;
  max_backoff = pos 30000;
  max_network_delay = pos 1000;
  request_timeout = pos 60000;
  append_message_type_to_url = pos 1;
  transports = [];
}

-- The handle, with the addresses 0 and 1 for the two internal subscriptions.
unfoldable pub cometd_new : {Node : Type 0} → Cometd Node
unfolding listener_add conn_new register_transport
cometd_new =
    let (listeners, on_handshake) = listener_add [] 0 channel_meta_handshake process_handshake in
    let (listeners', on_connect) = listener_add listeners 1 channel_meta_connect process_connect in
    record {
      conn = conn_new;
      config = record default_config { transports = register_transport [] transport_long_polling };
      last_error = record { code = success; message = none };
      loop = loop_gthread_new;
      inbox = [];
      subscriptions = listeners';
      sys_s = record { handshake = on_handshake; connect = on_connect };
      exts = [];
    }

module _ (env : Env) where
  open env use {json}
  open json use {Node, get_elements}

  abbrev pub call_destroy : Option LoopFunc → Cmd (W env) (Unit {0})
  call_destroy none = pure tt
  call_destroy (some gthread) = pure tt
  call_destroy (some (foreign_loop n)) = env.foreign_destroy n

  abbrev pub set_config : (Config → Config) → Cmd (W env) (Unit {0})
  set_config f = modify (λ w. record w { h = record w.h { config = f w.h.config } })

  -- The result is always 0.
  unfoldable pub configure : Opt → Cmd (W env) (Unit {0})
  configure (opt_url url) = set_config (λ c. record c { url = url })
  configure (opt_request_timeout t) = set_config (λ c. record c { request_timeout = t })
  configure (opt_loop loop) = do
    destroy ← gets (λ w. w.h.loop.destroy)
    call_destroy destroy
    modify (λ w. record w { h = record w.h { loop = loop } })
  configure (opt_backoff_increment t) = set_config (λ c. record c { backoff_increment = t })
  configure (opt_max_backoff t) = set_config (λ c. record c { max_backoff = t })

  -- `cometd_add_listener`; malloc gives the next address.
  unfoldable pub add_listener : String → Callback → Cmd (W env) (Option Subscription)
  add_listener channel cb w =
      let (listeners, s) = listener_add w.h.subscriptions w.allocated channel cb in
      done
        (s, record w { h = record w.h { subscriptions = listeners }; allocated = suc w.allocated })

  -- `cometd_remove_listener`
  unfoldable pub remove_listener : Option Subscription → Cmd (W env) Code
  remove_listener s w =
      let (listeners, code) = listener_remove w.h.subscriptions s in
      done (code, record w { h = record w.h { subscriptions = listeners } })

  -- Calls that may start a handshake take the fuel of `handshake`.
  module _ (fuel : ℕ) where
    abbrev pub send_over : Option Transport → Node → Cmd (W env) Code
    send_over none msg = pure unknown
    send_over (some t) msg = send_msg_sync env (handshake env fuel) msg (some t)

    unfoldable pub transport_send : Node → Cmd (W env) Code
    transport_send msg = do t ← gets (λ w. w.h.conn.transport); send_over t msg

    unfoldable pub publish : String → Node → Cmd (W env) Code
    publish channel message = do
      node ← on_conn (new_publish_message json channel message)
      transport_send node

    abbrev pub subscribe_remote : Bool → String → Cmd (W env) Code
    subscribe_remote true channel = pure success
    subscribe_remote false channel = do
      node ← on_conn (new_subscribe_message json channel)
      transport_send node

    unfoldable pub subscribe : String → Callback → Cmd (W env) (Option Subscription)
    subscribe channel handler = do
      code ← subscribe_remote (is_meta_channel channel) channel
      (if is_success code then add_listener channel handler else pure none)

    abbrev pub unsubscribe_remote : Bool → String → Cmd (W env) Code
    unsubscribe_remote false channel = pure unknown
    unsubscribe_remote true channel = do
      node ← on_conn (new_unsubscribe_message json channel)
      transport_send node

    abbrev pub last_remote : String → W env → Bool
    last_remote channel w =
        not (is_meta_channel channel) && listener_count w.h.subscriptions channel == 1

    abbrev pub finish_unsubscribe : Subscription → Code → Cmd (W env) Code
    finish_unsubscribe s success = pure success
    finish_unsubscribe s code = remove_listener (some s)

    unfoldable pub unsubscribe : Option Subscription → Cmd (W env) Code
    unsubscribe none = pure unknown
    unsubscribe (some s) = do
      last ← gets (last_remote s.channel)
      code ← unsubscribe_remote last s.channel
      finish_unsubscribe s code

    abbrev pub call_start : LoopFunc → Cmd (W env) ℕ
    call_start gthread w =
        done (0, record w { h = record w.h { loop = record w.h.loop { thread = thread_running } } })
    call_start (foreign_loop n) w = env.foreign_start n w

    -- g_assert(h->start != NULL)
    unfoldable pub loop_start : Cmd (W env) ℕ
    loop_start = do f ← reads (λ w. non_null w.h.loop.start); call_start f

    abbrev pub start_result : ℕ → Cmd (W env) Code
    start_result zero = do
      modify (λ w. put_conn w (conn_set_state w.h.conn connected))
      pure success
    start_result (suc n) = error env init_loop "could not initialize connection loop"

    abbrev pub start_loop : Code → Cmd (W env) Code
    start_loop success = do failed ← loop_start; start_result failed
    start_loop code = pure code

    unfoldable pub connect : Cmd (W env) Code
    connect = do code ← handshake env fuel; start_loop code
