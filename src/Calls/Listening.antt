-- ===== src/Calls/Listening.antt =====
-- The receiving thread, the loop that listens, and leaving.
use c_cometd_client.Prelude.{
  ℕ, zero, suc, ℤ, pos, ◌+◌, ◌%◌, ◌^◌, refl, Bool, true, false, Option, none, some, Cmd, pure, ◌>>◌,
  Keeps, keeps_rules, Keeps-done, Keeps-bind, Keeps-modify, Keeps-if, Keeps-gets, Keeps-reads,
  Keeps-pure, is_minus_one,
}
use c_cometd_client.Conn.{disconnected}
use c_cometd_client.State.Types.{
  Thread, thread_unset, thread_null, thread_running, LoopFunc, gthread, foreign_loop,
}
use c_cometd_client.State.{Env}
use c_cometd_client.Msg.{msg_extract_connect}
use c_cometd_client.Inbox.{inbox_take}
use c_cometd_client.Client.{W}
use c_cometd_client.Receiving.{
  should_recv, process_received, next_backoff, gthread_round, gthread_loop, gthread_run, take_inbox,
  process_taken, drain, listen, join_thread, call_stop, loop_stop, leave, disconnect,
}
use c_cometd_client.Calls.Sound.{is_disconnected, Sound, Sound-IsPreorder, unmoved}
use c_cometd_client.Receiving.Keeping.{loop_wait-Keeps, recv-Keeps, push_inbox-Keeps}
use c_cometd_client.Calls.Posting.{received-Sound, ForeignSound}
use c_cometd_client.Calls.Processing.{process_msg-Keeps, process_msg_null-Keeps, set_state-Sound}
use c_cometd_client.Calls.Handshaking.{handshake-Keeps}

module _ (env : Env) (outside : ForeignSound env) where
  open env use {json}
  open json use {Node}

  module _ (fuel : ℕ) where
    process_received-Keeps :
        (connect : Option Node) → Keeps Sound (process_received env fuel connect)
    process_received-Keeps none =
        Keeps-bind _ _ (process_msg_null-Keeps env outside _ (handshake-Keeps env outside fuel))
          (λ code. Keeps-pure tt)
    process_received-Keeps (some connect) =
        Keeps-bind _ _ (process_msg-Keeps env outside _ (handshake-Keeps env outside fuel) connect)
          (λ r. Keeps-pure tt)

    gthread_round-Keeps :
        (rest : ℕ → ℤ → Cmd (W env) (Unit {0})) (attempt : ℕ) (backoff : ℤ)
        → ((a : ℕ) (b : ℤ) → Keeps Sound (rest a b))
        → Keeps Sound (gthread_round env fuel rest attempt backoff)
    unfolding gthread_round
    gthread_round-Keeps rest attempt backoff k =
        Keeps-bind _ _
          (loop_wait-Keeps env Sound Sound-IsPreorder (received-Sound env outside) backoff)
          (λ u.
            Keeps-bind _ _ (recv-Keeps env Sound Sound-IsPreorder (received-Sound env outside))
              (λ payload. Keeps-bind _ _ (Keeps-reads (λ w. msg_extract_connect json payload)) (λ p.
                Keeps-bind _ _
                  (push_inbox-Keeps env Sound Sound-IsPreorder (received-Sound env outside) p.1)
                  (λ u. Keeps-bind _ _ (process_received-Keeps p.0) (λ u.
                    Keeps-bind _ _ (Keeps-gets (next_backoff env fuel attempt)) (λ q.
                      Keeps-if (is_minus_one q.0) (pure tt) (rest ((q.1 + 1) % 2 ^ 32) q.0)
                        (Keeps-pure tt) (k _ _)))))))

    gthread_loop-Keeps :
        (rounds attempt : ℕ) (backoff : ℤ)
        → Keeps Sound (gthread_loop env fuel rounds attempt backoff)
    unfolding gthread_loop
    gthread_loop-Keeps zero attempt backoff = search keeps_rules
    gthread_loop-Keeps (suc rounds) attempt backoff =
        Keeps-bind _ _ (Keeps-gets (should_recv env)) (λ again.
          Keeps-if again (gthread_round env fuel (gthread_loop env fuel rounds) attempt backoff)
            (pure tt) (gthread_round-Keeps _ attempt backoff (gthread_loop-Keeps rounds))
            (Keeps-pure tt))

    pub gthread_run-Keeps : (rounds : ℕ) → Keeps Sound (gthread_run env fuel rounds)
    unfolding gthread_run
    gthread_run-Keeps rounds =
        Keeps-bind _ _ (gthread_loop-Keeps rounds 1 (pos 0))
          (λ u. Keeps-modify _ (set_state-Sound env disconnected is_disconnected))

    take_inbox-Keeps : Keeps Sound (take_inbox env fuel)
    take_inbox-Keeps =
        Keeps-done _ (λ w. (inbox_take w.h.inbox).0) _ (λ w. refl)
          (λ w. unmoved _ _ refl refl refl refl)

    process_taken-Keeps :
        (rest : Cmd (W env) (Unit {0})) (msg : Option Node)
        → Keeps Sound rest
        → Keeps Sound (process_taken env fuel rest msg)
    process_taken-Keeps rest none k = search keeps_rules
    process_taken-Keeps rest (some msg) k =
        Keeps-bind _ _ (process_msg-Keeps env outside _ (handshake-Keeps env outside fuel) msg)
          (λ r. k)

    drain-Keeps : (rounds : ℕ) → Keeps Sound (drain env fuel rounds)
    unfolding drain
    drain-Keeps zero = search keeps_rules
    drain-Keeps (suc rounds) =
        Keeps-bind _ _ take_inbox-Keeps (λ msg. process_taken-Keeps _ msg (drain-Keeps rounds))

    pub listen-Keeps : (rounds : ℕ) → Keeps Sound (listen env fuel rounds)
    unfolding listen
    listen-Keeps zero = search keeps_rules
    listen-Keeps (suc rounds) = Keeps-bind _ _ (Keeps-gets _) (λ stop.
        Keeps-if stop (pure tt) (drain env fuel rounds >> listen env fuel rounds) (Keeps-pure tt)
          (Keeps-bind _ _ (drain-Keeps rounds) (λ u. listen-Keeps rounds)))

  leave-Keeps : (b : Bool) → Keeps Sound (leave env b)
  leave-Keeps true = search keeps_rules
  leave-Keeps false = Keeps-modify _ (set_state-Sound env disconnected is_disconnected)

  module _ (remaining : Cmd (W env) (Unit {0})) (remaining_keeps : Keeps Sound remaining) where
    join_thread-Keeps : (t : Thread) → Keeps Sound (join_thread env remaining t)
    join_thread-Keeps thread_unset = search keeps_rules
    join_thread-Keeps thread_null = search keeps_rules
    join_thread-Keeps thread_running = remaining_keeps

    call_stop-Keeps : (f : LoopFunc) → Keeps Sound (call_stop env remaining f)
    call_stop-Keeps gthread = Keeps-bind _ _ (Keeps-gets _) (λ t.
        Keeps-bind _ _ (join_thread-Keeps t)
          (λ u. Keeps-modify _ (λ w. unmoved _ _ refl refl refl refl)))
    call_stop-Keeps (foreign_loop n) = outside.stop n

    loop_stop-Keeps : Keeps Sound (loop_stop env remaining)
    unfolding loop_stop
    loop_stop-Keeps = search (keeps_rules, call_stop-Keeps)

    pub disconnect-Keeps : (b : Bool) → Keeps Sound (disconnect env remaining b)
    unfolding disconnect
    disconnect-Keeps b = search (keeps_rules, leave-Keeps, loop_stop-Keeps)
