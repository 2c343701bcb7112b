-- ===== src/Samples/Threads.antt =====
-- Witnesses on a new client and on the receiving thread.
use c_cometd_client.Prelude.{
  ◌+◌, ◌*◌, ◌<◌, ◌≤◌, ◌≡◌, refl, true, false, none, some, [], ◌∷◌, pos, arith, done,
}
use c_cometd_client.Conn.{
  connected, disconnected, disconnecting, unconnected, conn_is_state, conn_state,
}
use c_cometd_client.State.{World, put_conn}
use c_cometd_client.Msg.{channel_meta_handshake, channel_meta_connect}
use c_cometd_client.Event.{listener_get}
use c_cometd_client.Http.Failures.{IsUnreachable}
use c_cometd_client.Client.{in_state}
use c_cometd_client.Session.{cometd_new}
use c_cometd_client.Session.Creating.{on_handshake, on_connect, cometd_new-hears}
use c_cometd_client.Receiving.{should_recv, gthread_loop, gthread_run}
use c_cometd_client.Receiving.Reconnecting.{IsPolling}
use c_cometd_client.Receiving.Retrying.{retry_at_once, gthread_run-gives_up}
use c_cometd_client.Receiving.Spinning.{gthread_loop-spins}
use c_cometd_client.Libs.Json.{JsonLaws}
use c_cometd_client.Samples.Values.{Value, value_laws}
use c_cometd_client.Samples.Parts.{split_strings, split_laws}
use c_cometd_client.Samples.World.{offline, world, short_config, sample_conn}

cometd_new-hears_example :
    (listener_get split_strings (cometd_new {Node = Value}).subscriptions channel_meta_handshake
      ≡ done (on_handshake ∷ []))
    × (listener_get split_strings (cometd_new {Node = Value}).subscriptions channel_meta_connect
        ≡ done (on_connect ∷ []))
cometd_new-hears_example = cometd_new-hears split_strings split_laws refl refl Value

abbrev laws_of_json : JsonLaws offline.json
laws_of_json = value_laws (λ node. some "[]") (λ body. none)

never_answers : IsUnreachable offline
never_answers posts post = refl

-- A client that is connected, with the subscriptions of a new one.
abbrev polling : World Value
polling = world connected (cometd_new {Node = Value}).subscriptions

abbrev advised : World Value
advised = put_conn polling (record (sample_conn connected) { advice = some retry_at_once })

polling-IsPolling : IsPolling offline "c1" none short_config polling
polling-IsPolling = record {
  no_exts = refl;
  waits = refl;
  polls = refl;
  named = refl;
  advised = refl;
  configured = refl;
  handler = on_connect;
  handles = refl;
  heard = (cometd_new-hears split_strings split_laws refl refl Value).1;
}

advised-IsPolling : IsPolling offline "c1" (some retry_at_once) short_config advised
advised-IsPolling = record {
  no_exts = refl;
  waits = refl;
  polls = refl;
  named = refl;
  advised = refl;
  configured = refl;
  handler = on_connect;
  handles = refl;
  heard = (cometd_new-hears split_strings split_laws refl refl Value).1;
}

polling_receives : should_recv offline polling ≡ true
unfolding should_recv conn_is_state conn_state
polling_receives = refl

advised_receives : should_recv offline advised ≡ true
unfolding should_recv conn_is_state conn_state
advised_receives = refl

polling_stays : in_state offline (disconnecting + disconnected) polling ≡ false
unfolding conn_is_state conn_state
polling_stays = refl

advised_stays : in_state offline (disconnecting + disconnected) advised ≡ false
unfolding conn_is_state conn_state
advised_stays = refl

gthread_loop-spins_example :
    (w' : World Value) × (gthread_loop offline 1 (3 + 4) 1 (pos 0) polling
      ≡ gthread_loop offline 1 4 1 (pos 0) w')
    × (w'.h.conn.state ≡ unconnected)
    × (w'.sleeps ≡ [])
    × (w'.h.conn.msg_id_seed ≡ 7 + 2 * 3)
gthread_loop-spins_example =
    gthread_loop-spins offline laws_of_json never_answers 1 "c1" none short_config 2 4 polling
      polling-IsPolling polling_receives polling_stays refl

gthread_run-gives_up_example :
    (w' : World Value) × (gthread_run offline 1 4 advised ≡ done (tt, w'))
    × (w'.h.conn.state ≡ disconnected)
    × (7 < w'.h.conn.msg_id_seed)
    × (w'.h.conn.msg_id_seed ≤ 7 + 2 * 4)
gthread_run-gives_up_example =
    gthread_run-gives_up offline laws_of_json never_answers 1 "c1" short_config 0 2 refl refl
      (omega arith) 4 advised advised-IsPolling advised_receives advised_stays (omega arith)
