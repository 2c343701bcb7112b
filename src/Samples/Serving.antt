-- ===== src/Samples/Serving.antt =====
-- Witnesses with a server that answers each connect request with one more message, and on the two
-- threads.
use c_cometd_client.Prelude.{
  none, false, ◌≤◌, ◌⊎◌, Keeps-pure, ◌+◌, ◌≡◌, ◌++◌, refl, true, some, List, [], ◌∷◌, pos, length,
}
use c_cometd_client.Conn.{connected, disconnected, conn_is_state, conn_state, conn_set_state}
use c_cometd_client.Libs.Json.{JsonLaws}
use c_cometd_client.State.{World, Env, Post, performed}
use c_cometd_client.Msg.{
  msg_channel, msg_is_successful, msg_advice, msg_extract_connect, find_connect, holds_object,
}
use c_cometd_client.Session.{cometd_new}
use c_cometd_client.Session.Creating.{on_connect, cometd_new-hears}
use c_cometd_client.Receiving.{should_recv, gthread_loop}
use c_cometd_client.Receiving.Serving.{Served, IsServing, IsListening}
use c_cometd_client.Receiving.Delivering.{delivered, gthread_loop-serves}
use c_cometd_client.Threads.{
  testing, ended, idle, joining, returned, System, at, joined, in_disconnected, Step, Steps,
  leaves_loop, finishes, disconnects, joins, none_more, one_more,
}
use c_cometd_client.Threads.Safety.{is_ended, Steps-IsDisconnected}
use c_cometd_client.Threads.Still.{Same-IsPreorder}
use c_cometd_client.Threads.Leaving.{HearsConnect, IsStuck, is_past}
use c_cometd_client.Threads.Ending.{steps_taken, disconnect-ends}
use c_cometd_client.Threads.Race.{disconnect-hangs}
use c_cometd_client.Samples.Values.{
  Value, obj, text, truth, arr, field, end, cons, nil, value_json, value_laws,
}
use c_cometd_client.Samples.World.{offline, world, on_channel}
use c_cometd_client.Samples.Parts.{split_strings, split_laws}

abbrev accepted : Value
accepted = obj (field "channel" (text "/meta/connect") (field "successful" (truth true) end))

abbrev news : Value
news = on_channel "/chat/room"

-- A server that answers every request with the news and the connect response.
abbrev pub serving : Env
serving = record offline {
  json = value_json (λ node. some "[]") (λ body. some (arr (cons news (cons accepted nil))));
  perform = λ posts post. performed true 200 ("[...]" ∷ []);
}

abbrev pub serving_laws : JsonLaws serving.json
serving_laws = value_laws (λ node. some "[]") (λ body. some (arr (cons news (cons accepted nil))))

pub served : (posts : List Post) (post : Post) → Served serving posts post
unfolding msg_extract_connect find_connect msg_channel holds_object msg_is_successful msg_advice
served posts post = record {
  chunk = "[...]";
  chunks = [];
  code = 200;
  payload = arr (cons news (cons accepted nil));
  connect = accepted;
  others = news ∷ [];
  replied = refl;
  code_ok = refl;
  loaded = refl;
  channels = (("/chat/room", refl), (("/meta/connect", refl), tt));
  split = record {
    pre = news ∷ [];
    post = [];
    split = refl;
    left = refl;
    connect = refl;
    last = tt;
  };
  ok = refl;
  calm = refl;
}

pub served-others :
    (posts : List Post) (post : Post) → (served posts post).others ≡ on_channel "/chat/room" ∷ []
unfolding served
served-others posts post = refl

abbrev pub serving-IsServing : IsServing serving
serving-IsServing = record {
  laws = serving_laws;
  print = λ n. "[]";
  printed = λ n. refl;
  serve = served;
}

abbrev listening : World Value
listening = world connected (cometd_new {Node = Value}).subscriptions

listening-IsListening : IsListening serving listening
listening-IsListening = record {
  no_exts = refl;
  waits = refl;
  polls = refl;
  handler = on_connect;
  handles = refl;
  heard = (cometd_new-hears split_strings split_laws refl refl Value).1;
}

gthread_loop-serves_example :
    (w' : World Value) × (new : List Post) × (gthread_loop serving 1 (3 + 4) 1 (pos 0) listening
      ≡ gthread_loop serving 1 4 1 (pos 0) w')
    × (w'.h.conn.state ≡ connected)
    × (w'.posts ≡ new ++ [])
    × (length new ≡ 3)
    × (w'.h.inbox ≡ [] ++ delivered serving serving-IsServing new [])
    × (w'.h.exts ≡ listening.h.exts)
    × (w'.h.subscriptions ≡ listening.h.subscriptions)
unfolding should_recv conn_is_state conn_state
gthread_loop-serves_example =
    gthread_loop-serves serving serving-IsServing 2 4 1 1 (pos 0) listening listening-IsListening
      refl refl

disconnect-hangs_example :
    (t : System serving) × Steps serving 1 (at serving listening (testing 1 (pos 0)) idle) t
    × (t.world.h.conn.state ≡ connected)
    × (t.application ≡ joining)
    × ((u : System serving) → Steps serving 1 t u → u.application ≡ joining)
unfolding should_recv conn_is_state conn_state
disconnect-hangs_example =
    disconnect-hangs serving serving-IsServing 1 1 (pos 0) listening listening-IsListening refl refl

abbrev disconnected_already : World Value
disconnected_already = world disconnected (cometd_new {Node = Value}).subscriptions

disconnected_hears : HearsConnect offline disconnected_already
disconnected_hears = record {
  no_exts = refl;
  handler = on_connect;
  handles = refl;
  heard = (cometd_new-hears split_strings split_laws refl refl Value).1;
}

abbrev joined_at_last : System offline
joined_at_last =
    at offline
      (joined offline (in_disconnected offline (in_disconnected offline disconnected_already)))
      ended returned

leaving_run :
    Steps offline 1 (at offline disconnected_already (testing 1 (pos 0)) idle) joined_at_last
unfolding should_recv conn_is_state conn_state
leaving_run =
    one_more (leaves_loop refl)
      (one_more finishes (one_more disconnects (one_more joins none_more)))

Steps-IsDisconnected_example :
    (is_ended offline joined_at_last.receiver ≡ true)
    × (joined_at_last.world.h.conn.state ≡ disconnected)
Steps-IsDisconnected_example =
    Steps-IsDisconnected offline 1 1 (pos 0) disconnected_already joined_at_last leaving_run refl

abbrev joining_at_test : System offline
joining_at_test =
    at offline (in_disconnected offline disconnected_already) (testing 1 (pos 0)) joining

ending_run : Steps offline 1 joining_at_test joined_at_last
unfolding should_recv conn_is_state conn_state conn_set_state
ending_run = one_more (leaves_loop refl) (one_more finishes (one_more joins none_more))

disconnect-ends_example :
    (steps_taken offline ending_run ≤ 7)
    × (joined_at_last.world.h.conn.state ≡ disconnected)
    × (is_past offline joined_at_last.receiver ≡ false)
    × ((joined_at_last.application ≡ returned)
        ⊎ (((u : System offline) × Step offline 1 joined_at_last u)
            ⊎ IsStuck offline joined_at_last.world joined_at_last.receiver))
disconnect-ends_example =
    disconnect-ends offline (λ n millis. Keeps-pure tt) (λ n. Keeps-pure none) 1
      disconnected_already (testing 1 (pos 0)) joined_at_last disconnected_hears tt refl ending_run
