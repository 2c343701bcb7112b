-- ===== src/Samples/Calls.antt =====
-- Witnesses on sequences of calls.
use c_cometd_client.Prelude.{
  ℕ, ◌≡◌, ◌≢◌, ◌<◌, ◌++◌, refl, arith, false, none, some, pos, List, [], ◌∷◌, Keeps-pure, done,
  and_then_step,
}
use c_cometd_client.Conn.Types.{success, Conn}
use c_cometd_client.Conn.{connected, disconnected, conn_set_state, conn_is_state}
use c_cometd_client.State.Types.{foreign, thread_null}
use c_cometd_client.State.{World, Post, put_conn}
use c_cometd_client.Msg.{next_id}
use c_cometd_client.Messages.{base_object, new_publish_message}
use c_cometd_client.Event.WellFormed.{IsWellFormed}
use c_cometd_client.Event.{listener_add}
use c_cometd_client.Client.Online.{welcomed}
use c_cometd_client.Session.{transport_long_polling, cometd_new, add_listener}
use c_cometd_client.Session.Connecting.{started, connect-welcomed}
use c_cometd_client.Receiving.{disconnect, loop_stop, gthread_run, gthread_loop, should_recv}
use c_cometd_client.Calls.Sound.{IsState, Sound-IsPreorder}
use c_cometd_client.Calls.Posting.{ForeignSound}
use c_cometd_client.Calls.Invariant.{run_calls-IsState, run_calls-session}
use c_cometd_client.Calls.Numbering.{message_id, publish_message, message_ids_increase}
use c_cometd_client.Calls.{
  Call, call_connect, call_disconnect, call_add_listener, new_world, run_call, run_calls,
}
use c_cometd_client.Samples.Values.{Value}
use c_cometd_client.Samples.World.{on_channel}
use c_cometd_client.Samples.Connections.{online, online_laws, new-IsWelcome}

online-ForeignSound : ForeignSound online
online-ForeignSound = record {
  callback = λ n msg. Keeps-pure success;
  send = λ n msg. Keeps-pure none;
  recv = λ n. Keeps-pure none;
  ext = λ n msg. Keeps-pure msg;
  ext_null = λ n. Keeps-pure tt;
  start = λ n. Keeps-pure 0;
  stop = λ n. Keeps-pure tt;
  wait = λ n millis. Keeps-pure tt;
  destroy = λ n. Keeps-pure tt;
}

abbrev session : World Value
session =
    started online (welcomed online online_laws new_world "[]" transport_long_polling "c2" none)

connected_run : run_calls online 2 (call_connect ∷ []) new_world ≡ done (tt, session)
unfolding run_calls run_call cometd_new
connected_run =
    and_then_step (λ u. run_calls online 2 [])
      (and_then_step (λ code w. done (tt, w))
        (connect-welcomed online online_laws 0 new_world "[]" transport_long_polling "c2" none
          new-IsWelcome refl))

run_calls-IsState_example : IsState connected × IsWellFormed 2 session.h.subscriptions
run_calls-IsState_example =
    run_calls-IsState online online-ForeignSound 2 (call_connect ∷ []) session connected_run

abbrev leaving : List (Call Value)
leaving = call_add_listener "/chat/room" (foreign 5) ∷ call_disconnect 3 false ∷ []

abbrev left : World Value
left = record session {
  h = record session.h {
    conn = conn_set_state session.h.conn disconnected;
    loop = record session.h.loop { thread = thread_null };
    subscriptions = (listener_add session.h.subscriptions 2 "/chat/room" (foreign 5)).0;
  };
  allocated = 3;
}

left_run : run_calls online 2 leaving session ≡ done (tt, left)
unfolding run_calls run_call add_listener disconnect loop_stop cometd_new gthread_run gthread_loop
    should_recv conn_is_state conn_set_state
left_run = refl

run_calls-session_example :
    (left.h.conn.transport ≢ none)
    × (left.h.conn.client_id ≢ none)
    × ((new : List Post) × (left.posts ≡ new ++ session.posts))
run_calls-session_example =
    run_calls-session online online-ForeignSound 2 leaving session left (λ e. ground arith)
      (λ e. ground arith) left_run

-- A message to the chat room with this id.
abbrev published : ℕ → Value
published n = online.json.take_object (
    online.json.set_member (base_object online.json (pos n) "/chat/room" (some "c2")) "data"
      (on_channel "/chat/room"))

abbrev counted : ℕ → Conn
counted n = record session.h.conn { msg_id_seed = n }

-- The client has published, and then has one more listener.
abbrev heard : World Value
heard =
    let w = put_conn session (counted 2) in
    record w {
      h = record w.h {
        subscriptions = (listener_add session.h.subscriptions 2 "/chat/room" (foreign 5)).0;
      };
      allocated = 3;
    }

heard_run :
    run_calls online 2
      (call_add_listener "/chat/room" (foreign 5) ∷ [])
      (put_conn session (counted 2))
    ≡ done (tt, heard)
unfolding run_calls run_call add_listener cometd_new
heard_run = refl

message_ids_increase_example :
    (a : ℕ) × (b : ℕ) × (message_id online.json (published 2) ≡ some (pos a))
    × (message_id online.json (published 3) ≡ some (pos b))
    × (a < b)
unfolding new_publish_message next_id cometd_new
message_ids_increase_example =
    message_ids_increase online online_laws online-ForeignSound 2
      (call_add_listener "/chat/room" (foreign 5) ∷ []) session heard
      (publish_message "/chat/room" (on_channel "/chat/room"))
      (publish_message "/chat/room" (on_channel "/chat/room")) "c2" "c2" (counted 2) (counted 3)
      (published 2) (published 3) refl refl heard_run refl refl
