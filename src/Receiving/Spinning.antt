-- ===== src/Receiving/Spinning.antt =====
-- Without the advice to retry, the receiving loop spins while the server cannot be reached.
use c_cometd_client.Prelude.{
  ℕ, zero, suc, ◌+◌, ◌*◌, ◌≡◌, ◌∙◌, refl, ap, String, true, false, Option, List, pos, arith,
}
use c_cometd_client.Libs.Json.{JsonLaws}
use c_cometd_client.Conn.Types.{Advice}
use c_cometd_client.Conn.{disconnected, disconnecting, unconnected}
use c_cometd_client.State.Types.{Config}
use c_cometd_client.State.{Env, Post}
use c_cometd_client.Http.Failures.{IsUnreachable}
use c_cometd_client.Client.{W, in_state}
use c_cometd_client.Receiving.{should_recv, wants_retry, gthread_loop}
use c_cometd_client.Receiving.Reconnecting.{
  IsPolling, failed_round, failed_round-IsPolling, after_round,
}
use c_cometd_client.Receiving.Rounds.{
  unconnected_receives, unconnected_stays, retries_by_advice, gthread_loop-fails,
  next_backoff-spins,
}

module _ (env : Env) (laws : JsonLaws env.json) (unreachable : IsUnreachable env) (fuel : ℕ) where
  module _ (client : String) (advice : Option Advice) (config : Config) where
    spin :
        (rounds : ℕ) (w : W env)
        → IsPolling env client advice config w
        → should_recv env w ≡ true
        → in_state env (disconnecting + disconnected) w ≡ false
        → wants_retry env advice ≡ false
        → (posts : List Post) × (gthread_loop env fuel (suc rounds) 1 (pos 0) w
            ≡ gthread_loop env fuel rounds 1 (pos 0) (failed_round env (pos 0) w posts))
    spin rounds w p receiving staying calm =
        let (posts, run) =
          gthread_loop-fails env laws unreachable fuel rounds 1 (pos 0) client advice config w p
            receiving staying in
        let w₁ = failed_round env (pos 0) w posts in
        (
          posts,
          run
              ∙ ap (λ n. after_round env (gthread_loop env fuel rounds) n w₁)
                  (next_backoff-spins env fuel 1 w₁
                    (retries_by_advice env w₁ advice refl p.advised ∙ calm)),
        )

    -- A client receives by long polling with its client id set, waits by usleep, has no extension,
    -- hears connect responses with its own handler alone, is in a state in which it receives and not
    -- leaving, and its server cannot be reached. Where its advice is not to retry, or it has none,
    -- the receiving loop goes on for ever from its start: after any number of rounds it is at its
    -- start again, with the state unconnected, having slept no time and used two ids a round.
    pub gthread_loop-spins :
        (n rounds : ℕ) (w : W env)
        → IsPolling env client advice config w
        → should_recv env w ≡ true
        → in_state env (disconnecting + disconnected) w ≡ false
        → wants_retry env advice ≡ false
        → (w' : W env) × (gthread_loop env fuel (suc n + rounds) 1 (pos 0) w
            ≡ gthread_loop env fuel rounds 1 (pos 0) w')
          × (w'.h.conn.state ≡ unconnected)
          × (w'.sleeps ≡ w.sleeps)
          × (w'.h.conn.msg_id_seed ≡ w.h.conn.msg_id_seed + 2 * suc n)
    gthread_loop-spins zero rounds w p receiving staying calm =
        let (posts, run) = spin rounds w p receiving staying calm in
        let e : suc zero + rounds ≡ suc rounds = omega arith in
        (failed_round env (pos 0) w posts, rw e run, refl, refl, omega arith)
    gthread_loop-spins (suc n) rounds w p receiving staying calm =
        let (posts, run) = spin (suc n + rounds) w p receiving staying calm in
        let w₁ = failed_round env (pos 0) w posts in
        let p₁ =
          failed_round-IsPolling env laws unreachable fuel client advice config (pos 0) w posts p in
        let (w', more, state, sleeps, seed) =
          gthread_loop-spins n rounds w₁ p₁ (unconnected_receives env w₁ refl)
            (unconnected_stays env w₁ refl) calm in
        let e : suc (suc n) + rounds ≡ suc (suc n + rounds) = omega arith in
        (w', rw e (run ∙ more), state, sleeps, omega (arith, seed))
