-- ===== src/Examples/Offline.antt =====
-- The programs of examples/ when the server cannot be reached.
use c_cometd_client.Prelude.{
  ℕ, zero, suc, ◌+◌, ◌≤◌, ◌≡◌, ◌∙◌, refl, ap, arith, String, false, none, [], ◌∷◌, pos, done, crash,
  and_then_step, inr,
}
use c_cometd_client.Conn.Types.{is_success, Code, unknown}
use c_cometd_client.Conn.{uninitialized, conn_is_state, conn_state, conn_new}
use c_cometd_client.State.Types.{Config, Callback, thread_unset}
use c_cometd_client.State.{Env}
use c_cometd_client.Msg.{next_id}
use c_cometd_client.Messages.{new_publish_message, new_subscribe_message}
use c_cometd_client.Transport.{register_transport}
use c_cometd_client.Ext.{ext_add, ext_logger_new, ext_new}
use c_cometd_client.Http.Failures.{IsUnreachable}
use c_cometd_client.Client.{W}
use c_cometd_client.Client.Offline.{IsOffline}
use c_cometd_client.Session.{
  default_config, transport_long_polling, loop_gthread_new, is_meta_channel, transport_send,
  publish, subscribe, connect, cometd_new, configure,
}
use c_cometd_client.Session.Connecting.{connect_gives_up}
use c_cometd_client.Session.Subscribing.{undelivered}
use c_cometd_client.Receiving.{listen, gthread_run, disconnect}
use c_cometd_client.Receiving.Leaving.{disconnect-unset}
use c_cometd_client.Calls.{new_world}
use c_cometd_client.Examples.{
  handler, with_logger, set_up, basic, publish_all, stress_publishes, stress,
}

-- The configuration of the examples.
abbrev pub example_config : Config
example_config = record default_config {
  url = "http://localhost:8089/cometd";
  max_backoff = pos 5000;
  transports = transport_long_polling ∷ [];
}

module _ (env : Env) where
  open env use {json}
  open json use {Node}

  -- A client of the examples that never got through to the server.
  abbrev pub IsIdle : W env → Type 0
  IsIdle w = IsOffline env example_config uninitialized none loop_gthread_new w

  -- The client after the calls that the examples begin with.
  abbrev pub set_up_client : W env
  set_up_client = record (with_logger env new_world) {
    h = record (with_logger env new_world).h { config = example_config };
  }

  set_up-ends : set_up env new_world ≡ done (tt, set_up_client)
  unfolding set_up configure cometd_new register_transport ext_add ext_logger_new
  set_up-ends = refl

  set_up_client-IsIdle : IsIdle set_up_client
  unfolding cometd_new ext_add ext_logger_new ext_new conn_new
  set_up_client-IsIdle = record {
    logging = (inr refl, tt);
    waits = refl;
    in_loop = refl;
    no_advice = refl;
    configured = refl;
    in_this = refl;
    sends_by = refl;
  }

  undelivered-IsIdle : (w : W env) → IsIdle w → IsIdle (undelivered env w w.posts)
  undelivered-IsIdle w o = record {
    logging = o.logging;
    waits = o.waits;
    in_loop = o.in_loop;
    no_advice = o.no_advice;
    configured = o.configured;
    in_this = o.in_this;
    sends_by = o.sends_by;
  }

  module _ (fuel : ℕ) where
    publish-unknown :
        (channel : String) (n : Node) (w : W env)
        → w.h.conn.transport ≡ none
        → publish env fuel channel n w ≡ done (unknown, undelivered env w w.posts)
    unfolding publish new_publish_message next_id transport_send
    publish-unknown channel n w e = rw e refl

    subscribe-null :
        (channel : String) (cb : Callback) (w : W env)
        → is_meta_channel channel ≡ false
        → w.h.conn.transport ≡ none
        → subscribe env fuel channel cb w ≡ done (none, undelivered env w w.posts)
    unfolding subscribe new_subscribe_message next_id transport_send
    subscribe-null channel cb w no_meta e = rw (no_meta, e) refl

    -- The loop of the publishing, whose every call fails without a request.
    publish_all-IsIdle :
        (count : ℕ) (n : Node) (w : W env)
        → IsIdle w
        → (w' : W env) × (publish_all env fuel count n w ≡ done (tt, w'))
          × IsIdle w'
          × (w'.posts ≡ w.posts)
          × (w'.h.conn.msg_id_seed ≡ w.h.conn.msg_id_seed + count)
    unfolding publish_all
    publish_all-IsIdle zero n w o = (w, refl, o, refl, omega arith)
    publish_all-IsIdle (suc count) n w o =
        let (w', run, o', quiet, seed) =
          publish_all-IsIdle count n (undelivered env w w.posts) (undelivered-IsIdle w o) in
        (
          w',
          and_then_step (λ _. publish_all env fuel count n)
                (publish-unknown "/foo/bar/baz" n w o.sends_by)
              ∙ run,
          o',
          quiet,
          omega (arith, seed),
        )

    listens_no_more :
        (rounds : ℕ) (w : W env) → IsIdle w → listen env fuel (suc rounds) w ≡ done (tt, w)
    unfolding listen conn_is_state conn_state
    listens_no_more rounds w o = rw o.in_this refl

  module _ (unreachable : IsUnreachable env) (fuel : ℕ) (enough : 4999 ≤ fuel) where
    connects :
        (code : Code) × (w : W env) × (connect env (suc fuel) set_up_client ≡ done (code, w))
        × (is_success code ≡ false)
        × IsIdle w
    connects =
        let (code, w, run, failure, o) =
          connect_gives_up env unreachable example_config 999 4999 uninitialized fuel none
            loop_gthread_new set_up_client refl refl (omega arith) refl enough
            set_up_client-IsIdle in
        (code, w, run, failure, o)

    no_meta : is_meta_channel "/foo/bar/baz" ≡ false
    unfolding is_meta_channel
    no_meta = refl

    -- Where the server cannot be reached, and with as much fuel as the limit of its backoff has milliseconds,
    -- `cometd_connect` in the program of examples/basic.c, on the client that its first calls set up,
    -- ends with a code that is not success. The program ends and returns 0 with the client as that call
    -- left it, but that its subscribing took a message id: no request was made and no listener was added
    -- after the connecting. The client is uninitialized, with no transport and no advice, its loop not
    -- started and the configuration that was set.
    pub basic-ends :
        (rounds : ℕ)
        → (code : Code) × (w : W env) × (connect env (suc fuel) set_up_client ≡ done (code, w))
          × (is_success code ≡ false)
          × (basic env (suc fuel) (suc rounds) new_world ≡ done (0, undelivered env w w.posts))
          × IsIdle (undelivered env w w.posts)
    unfolding basic
    basic-ends rounds =
        let (code, w, run, failure, o) = connects in
        let w' = undelivered env w w.posts in
        let o' = undelivered-IsIdle w o in
        (
          code,
          w,
          run,
          failure,
          and_then_step _ set_up-ends
              ∙ and_then_step _ run
              ∙ and_then_step _
                  (subscribe-null (suc fuel) "/foo/bar/baz" handler w no_meta o.sends_by)
              ∙ and_then_step _ (listens_no_more (suc fuel) rounds w' o'),
          o',
        )

    -- With the same server, the calls of examples/stress.c up to the last publishing end, whatever the number
    -- of its messages, with the client uninitialized and the thread of its loop not set; there
    -- `cometd_disconnect` crashes, and so does the program.
    pub stress-crash :
        (rounds count : ℕ) (n : Node)
        → (w : W env) × (stress_publishes env (suc fuel) count n new_world ≡ done (tt, w))
          × (w.h.conn.state ≡ uninitialized)
          × (w.h.loop.thread ≡ thread_unset)
          × (disconnect env (gthread_run env (suc fuel) rounds) false w ≡ crash)
          × (stress env (suc fuel) rounds count n new_world ≡ crash)
    unfolding stress stress_publishes
    stress-crash rounds count n =
        let (code, w, run, failure, o) = connects in
        let w' = undelivered env w w.posts in
        let (w'', published, o'', quiet, seed) =
          publish_all-IsIdle (suc fuel) count n w' (undelivered-IsIdle w o) in
        let unset = ap (λ l. l.thread) o''.in_loop in
        let ends : stress_publishes env (suc fuel) count n new_world ≡ done (tt, w'') =
          and_then_step _ set_up-ends
          ∙ and_then_step _ run
          ∙ and_then_step _ (subscribe-null (suc fuel) "/foo/bar/baz" handler w no_meta o.sends_by)
          ∙ published in
        let crashes =
          disconnect-unset env (gthread_run env (suc fuel) rounds) w'' false
            (ap (λ l. l.stop) o''.in_loop) unset in
        (w'', ends, o''.in_this, unset, crashes, and_then_step _ ends ∙ rw crashes refl)
