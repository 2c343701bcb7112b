-- ===== src/Receiving.antt =====
-- src/cometd.c, lines 164 to 205 and 297 to 339, and src/loops/gthread.c: the thread that receives, the
-- loop that listens, and how both stop. Each loop is one thread's; its fuel bounds the rounds.
pub mod Keeping
pub mod Failing
pub mod Reconnecting
pub mod Rounds
pub mod Retrying
pub mod Spinning
pub mod Serving
pub mod Delivering
pub mod Listening
pub mod Arriving
pub mod Leaving
use c_cometd_client.Prelude.{
  ℕ, zero, suc, ◌+◌, ◌%◌, ◌^◌, Bool, true, false, ◌&&◌, Option, none, some, ℤ, pos, is_minus_one,
  if◌then◌else◌, Outcome, done, crash, starved, Cmd, pure, reads, modify, gets, non_null, ◌>>=◌,
  ◌>>◌,
}
use c_cometd_client.Conn.Types.{
  Code, success, RecvCallback, long_polling_recv, foreign_recv, Advice,
}
use c_cometd_client.Conn.{
  uninitialized, disconnected, handshake_success, connected, disconnecting, unconnected,
  advice_is_retry, conn_set_state,
}
use c_cometd_client.State.Types.{
  LoopFunc, gthread, foreign_loop, Thread, thread_unset, thread_null, thread_running,
}
use c_cometd_client.State.{Env, put_conn, on_conn}
use c_cometd_client.Msg.{msg_wrap, msg_bad_connect_new, msg_extract_connect}
use c_cometd_client.Backoff.{get_backoff}
use c_cometd_client.Http.{transport_long_polling_recv}
use c_cometd_client.Inbox.{inbox_push, inbox_take}
use c_cometd_client.Client.{W, in_state, process_msg, process_msg_null, loop_wait, handshake}

module _ (env : Env) where
  open env use {json}
  open json use {Node, get_elements}

  unfoldable pub run_recv : RecvCallback → Cmd (W env) (Option Node)
  run_recv long_polling_recv = transport_long_polling_recv env
  run_recv (foreign_recv n) = env.foreign_recv n

  -- Where nothing was received: a connect message that says it was not successful.
  abbrev pub or_bad_connect : Option Node → Cmd (W env) Node
  or_bad_connect (some payload) = pure payload
  or_bad_connect none = do msg ← on_conn (msg_bad_connect_new json); pure (msg_wrap json msg)

  -- g_assert(transport != NULL)
  unfoldable pub recv : Cmd (W env) Node
  recv = do
    transport ← reads (λ w. non_null w.h.conn.transport)
    payload ← run_recv transport.recv
    or_bad_connect payload

  unfoldable pub should_recv : W env → Bool
  should_recv = in_state env (connected + handshake_success + unconnected)

  abbrev pub wants_retry : Option Advice → Bool
  wants_retry none = false
  wants_retry (some advice) = advice_is_retry advice

  unfoldable pub should_retry_recv : W env → Bool
  should_retry_recv w = in_state env unconnected w && wants_retry w.h.conn.advice

  abbrev pub push_inbox : Node → Cmd (W env) (Unit {0})
  push_inbox payload =
      modify
        (λ w. record w { h = record w.h { inbox = inbox_push w.h.inbox (get_elements payload) } })

  module _ (fuel : ℕ) where
    abbrev pub process_received : Option Node → Cmd (W env) (Unit {0})
    process_received none = do _ ← process_msg_null env (handshake env fuel); pure tt
    process_received (some connect) = do _ ← process_msg env (handshake env fuel) connect; pure tt

    -- The next backoff, with the attempt before the loop's `++attempt`.
    abbrev pub next_backoff : ℕ → W env → ℤ × ℕ
    next_backoff attempt w =
        if should_retry_recv w
        then (get_backoff w.h.config w.h.conn.advice attempt, attempt)
        else (pos 0, 0)

    -- One round of `cometd_loop_gthread_run`; `rest` are the rounds after it.
    unfoldable pub gthread_round : (ℕ → ℤ → Cmd (W env) (Unit {0})) → ℕ → ℤ → Cmd (W env) (Unit {0})
    gthread_round rest attempt backoff = do
      loop_wait env backoff
      payload ← recv
      (connect, payload') ← reads (λ w. msg_extract_connect json payload)
      push_inbox payload'
      process_received connect
      (backoff', attempt') ← gets (next_backoff attempt)
      (if is_minus_one backoff' then pure tt else rest ((attempt' + 1) % 2 ^ 32) backoff')

    unfoldable pub gthread_loop : ℕ → ℕ → ℤ → Cmd (W env) (Unit {0})
    gthread_loop zero attempt backoff = reads (λ w. starved)
    gthread_loop (suc rounds) attempt backoff = do
      again ← gets should_recv
      (if again then gthread_round (gthread_loop rounds) attempt backoff else pure tt)

    unfoldable pub gthread_run : ℕ → Cmd (W env) (Unit {0})
    gthread_run rounds = do
      gthread_loop rounds 1 (pos 0)
      modify (λ w. put_conn w (conn_set_state w.h.conn disconnected))

    abbrev pub take_inbox : Cmd (W env) (Option Node)
    take_inbox w =
        let (node, queue) = inbox_take w.h.inbox in
        done (node, record w { h = record w.h { inbox = queue } })

    abbrev pub process_taken : Cmd (W env) (Unit {0}) → Option Node → Cmd (W env) (Unit {0})
    process_taken rest none = pure tt
    process_taken rest (some msg) = do _ ← process_msg env (handshake env fuel) msg; rest

    -- The inner loop of `cometd_listen`.
    unfoldable pub drain : ℕ → Cmd (W env) (Unit {0})
    drain zero = reads (λ w. starved)
    drain (suc rounds) = do msg ← take_inbox; process_taken (drain rounds) msg

    unfoldable pub listen : ℕ → Cmd (W env) (Unit {0})
    listen zero = reads (λ w. starved)
    listen (suc rounds) = do
      stop ← gets (in_state env (disconnected + disconnecting + uninitialized))
      (if stop then pure tt else (do drain rounds; listen rounds))

  -- The body of the thread that `cometd_listen_async` starts.
  unfoldable pub listen_thread_run : ℕ → ℕ → Cmd (W env) (Unit {0})
  listen_thread_run fuel rounds = listen fuel rounds

  -- `remaining` is what the receiving thread still does until its end; none of its steps comes between those
  -- of the caller but here.
  module _ (remaining : Cmd (W env) (Unit {0})) where
    -- g_thread_join waits for the end of the thread, and only warns where the thread is NULL. What it does
    -- with a pointer that was never set is undefined, here a crash.
    abbrev pub join_thread : Thread → Cmd (W env) (Unit {0})
    join_thread thread_unset = reads (λ w. crash)
    join_thread thread_null = pure tt
    join_thread thread_running = remaining

    abbrev pub call_stop : LoopFunc → Cmd (W env) (Unit {0})
    call_stop gthread = do
      thread ← gets (λ w. w.h.loop.thread)
      join_thread thread
      modify (λ w. record w { h = record w.h { loop = record w.h.loop { thread = thread_null } } })
    call_stop (foreign_loop n) = env.foreign_stop n

    -- g_assert(h->stop != NULL)
    unfoldable pub loop_stop : Cmd (W env) (Unit {0})
    loop_stop = do f ← reads (λ w. non_null w.h.loop.stop); call_stop f

  -- Waiting for the server is not done.
  abbrev pub leave : Bool → Cmd (W env) (Unit {0})
  leave true = pure tt
  leave false = modify (λ w. put_conn w (conn_set_state w.h.conn disconnected))

  unfoldable pub disconnect : Cmd (W env) (Unit {0}) → Bool → Cmd (W env) Code
  disconnect remaining wait_for_server = do leave wait_for_server; loop_stop remaining; pure success
