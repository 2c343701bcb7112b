-- ===== src/Receiving/Rounds.antt =====
-- One round of the receiving loop while the server cannot be reached, and what follows it.
use c_cometd_client.Prelude.{ℕ, suc, ◌+◌, ◌≡◌, String, true, false, Option, List, ℤ, pos}
use c_cometd_client.Libs.Json.{JsonLaws}
use c_cometd_client.Conn.Types.{Advice}
use c_cometd_client.Conn.{disconnected, disconnecting, unconnected, conn_is_state, conn_state}
use c_cometd_client.State.Types.{Config}
use c_cometd_client.State.{Env, Post}
use c_cometd_client.Backoff.{get_backoff}
use c_cometd_client.Http.Failures.{IsUnreachable}
use c_cometd_client.Client.{W, in_state}
use c_cometd_client.Receiving.{
  should_recv, should_retry_recv, wants_retry, next_backoff, gthread_loop,
}
use c_cometd_client.Receiving.Reconnecting.{
  IsPolling, failed_round, after_round, gthread_round-fails,
}

module _ (env : Env) where
  pub unconnected_receives : (w : W env) → w.h.conn.state ≡ unconnected → should_recv env w ≡ true
  unfolding should_recv conn_is_state conn_state
  unconnected_receives w e = simp e

  pub unconnected_stays :
      (w : W env)
      → w.h.conn.state ≡ unconnected
      → in_state env (disconnecting + disconnected) w ≡ false
  unfolding conn_is_state conn_state
  unconnected_stays w e = simp e

  pub retries_by_advice :
      (w : W env) (advice : Option Advice)
      → w.h.conn.state ≡ unconnected
      → w.h.conn.advice ≡ advice
      → should_retry_recv env w ≡ wants_retry env advice
  unfolding should_retry_recv conn_is_state conn_state
  retries_by_advice w advice e f = simp (e, f)

  module _ (fuel : ℕ) where
    pub next_backoff-spins :
        (attempt : ℕ) (w : W env)
        → should_retry_recv env w ≡ false
        → next_backoff env fuel attempt w ≡ (pos 0, 0)
    next_backoff-spins attempt w e = simp e

    pub next_backoff-retries :
        (attempt : ℕ) (w : W env) (advice : Option Advice) (config : Config)
        → should_retry_recv env w ≡ true
        → w.h.conn.advice ≡ advice
        → w.h.config ≡ config
        → next_backoff env fuel attempt w ≡ (get_backoff config advice attempt, attempt)
    next_backoff-retries attempt w advice config e f g = simp (e, f, g)

  module _ (laws : JsonLaws env.json) (unreachable : IsUnreachable env) (fuel : ℕ) where
    pub gthread_loop-fails :
        (rounds attempt : ℕ) (backoff : ℤ) (client : String) (advice : Option Advice)
        (config : Config) (w : W env)
        → IsPolling env client advice config w
        → should_recv env w ≡ true
        → in_state env (disconnecting + disconnected) w ≡ false
        → (posts : List Post) × (gthread_loop env fuel (suc rounds) attempt backoff w
            ≡ after_round env
                (gthread_loop env fuel rounds)
                (next_backoff env fuel attempt (failed_round env backoff w posts))
                (failed_round env backoff w posts))
    unfolding gthread_loop
    gthread_loop-fails rounds attempt backoff client advice config w p receiving staying =
        let (posts, run) =
          gthread_round-fails env laws unreachable fuel (gthread_loop env fuel rounds) attempt
            backoff client advice config w p staying in
        (posts, rw receiving run)
