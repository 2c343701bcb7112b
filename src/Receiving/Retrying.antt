-- ===== src/Receiving/Retrying.antt =====
-- With the advice to retry, the receiving thread gives up while the server cannot be reached.
use c_cometd_client.Prelude.{
  ℕ, zero, suc, ◌+◌, ◌-◌, ◌*◌, ◌%◌, ◌^◌, ◌≤◌, ◌<◌, ◌≡◌, ◌∙◌, refl, ap, String, Bool-cases, inl, inr,
  true, false, some, List, ℤ, pos, ltb, leb, is_minus_one, if◌then◌else◌, arith, done, Cmd,
  and_then_step,
}
use c_cometd_client.Libs.Json.{JsonLaws}
use c_cometd_client.Conn.Types.{Advice, reconnect_retry}
use c_cometd_client.Conn.{disconnected, disconnecting, conn_set_state, advice_is_retry}
use c_cometd_client.State.Types.{Config}
use c_cometd_client.State.{Env, Post, put_conn}
use c_cometd_client.Backoff.{minus_one, get_backoff}
use c_cometd_client.Backoff.Bounds.{get_backoff-table, compute_backoff-eq}
use c_cometd_client.Http.Failures.{IsUnreachable}
use c_cometd_client.Client.{W, in_state}
use c_cometd_client.Receiving.{should_recv, wants_retry, gthread_loop, gthread_run}
use c_cometd_client.Receiving.Reconnecting.{
  IsPolling, failed_round, failed_round-IsPolling, after_round,
}
use c_cometd_client.Receiving.Rounds.{
  unconnected_receives, unconnected_stays, retries_by_advice, gthread_loop-fails,
  next_backoff-retries,
}

-- The advice to retry without an interval.
abbrev pub retry_at_once : Advice
retry_at_once = record { reconnect = reconnect_retry; interval = pos 0 }

module _ (env : Env) (laws : JsonLaws env.json) (unreachable : IsUnreachable env) (fuel : ℕ) where
  retries : wants_retry env (some retry_at_once) ≡ true
  unfolding advice_is_retry
  retries = refl

  module _ (client : String) (config : Config) (i m : ℕ)
      (increment : config.backoff_increment ≡ pos (suc i))
      (limit : config.max_backoff ≡ pos (suc m)) (small : m + 3 < 2 ^ 32) where
    abbrev pause : ℕ → ℤ
    pause attempt =
        if leb attempt 1
        then pos 0
        else if ltb ((attempt - 1) * suc i) (suc m)
        then pos ((attempt - 1) * suc i)
        else minus_one

    get_backoff-pause :
        (attempt : ℕ) → get_backoff config (some retry_at_once) attempt ≡ pause attempt
    get_backoff-pause attempt =
        get_backoff-table config (some retry_at_once) attempt
        ∙ ap (λ z. if leb attempt 1 then pos 0 else z)
            (compute_backoff-eq config i m (attempt - 1) increment limit)

    retry_round :
        (rounds attempt : ℕ) (backoff : ℤ) (w : W env)
        → IsPolling env client (some retry_at_once) config w
        → should_recv env w ≡ true
        → in_state env (disconnecting + disconnected) w ≡ false
        → (posts : List Post) × (gthread_loop env fuel (suc rounds) attempt backoff w
            ≡ after_round env
                (gthread_loop env fuel rounds)
                (pause attempt, attempt)
                (failed_round env backoff w posts))
    retry_round rounds attempt backoff w p receiving staying =
        let (posts, run) =
          gthread_loop-fails env laws unreachable fuel rounds attempt backoff client
            (some retry_at_once) config w p receiving staying in
        let w₁ = failed_round env backoff w posts in
        (
          posts,
          run
              ∙ ap (λ n. after_round env (gthread_loop env fuel rounds) n w₁)
                  (next_backoff-retries env fuel attempt w₁ (some retry_at_once) config
                      (retries_by_advice env w₁ (some retry_at_once) refl p.advised ∙ retries)
                      p.advised p.configured
                    ∙ ap (λ z. (z, attempt)) (get_backoff-pause attempt)),
        )

    -- The pause is no end at attempts within the limit.
    goes_on : (attempt : ℕ) → is_minus_one (pause attempt) ≡ false → attempt ≤ m + 1
    goes_on attempt h = grind arith

    next_round :
        (rest : ℕ → ℤ → Cmd (W env) (Unit {0})) (attempt : ℕ) (backoff : ℤ) (w : W env)
        → is_minus_one backoff ≡ false
        → attempt ≤ m + 1
        → after_round env rest (backoff, attempt) w ≡ rest (attempt + 1) backoff w
    next_round rest attempt backoff w goes low =
        let e : (attempt + 1) % 2 ^ 32 ≡ attempt + 1 = omega arith in rw (goes, e) refl

    loop_ends :
        (rounds attempt : ℕ) (backoff : ℤ) (w : W env)
        → IsPolling env client (some retry_at_once) config w
        → should_recv env w ≡ true
        → in_state env (disconnecting + disconnected) w ≡ false
        → attempt ≤ m + 2
        → m + 3 ≤ attempt + rounds
        → (w' : W env) × (gthread_loop env fuel rounds attempt backoff w ≡ done (tt, w'))
          × (w.h.conn.msg_id_seed < w'.h.conn.msg_id_seed)
          × (w'.h.conn.msg_id_seed + 2 * attempt ≤ w.h.conn.msg_id_seed + 2 * (m + 3))
    loop_ends zero attempt backoff w p receiving staying low enough = absurd (omega arith)
    loop_ends (suc rounds) attempt backoff w p receiving staying low enough =
        let (posts, run) = retry_round rounds attempt backoff w p receiving staying in
        let w₁ = failed_round env backoff w posts in
        elim (Bool-cases (is_minus_one (pause attempt))) [
          | inl ends ↦ (w₁, run ∙ simp ends, omega arith, omega arith)
          | inr goes ↦
              let p₁ =
                failed_round-IsPolling env laws unreachable fuel client (some retry_at_once) config
                  backoff w posts p in
              let (w', rest, more, few) =
                loop_ends rounds (attempt + 1) (pause attempt) w₁ p₁
                  (unconnected_receives env w₁ refl) (unconnected_stays env w₁ refl)
                  (omega (arith, goes_on attempt goes)) (omega arith) in
              (
                w',
                run
                    ∙ next_round (gthread_loop env fuel rounds) attempt (pause attempt) w₁ goes
                        (goes_on attempt goes)
                    ∙ rest,
                omega arith,
                omega arith,
              )
        ]

    -- A client receives by long polling with its client id set, waits by usleep, has no extension,
    -- hears connect responses with its own handler alone, is in a state in which it receives and not
    -- leaving, and its server cannot be reached. Where its advice is to retry at once, the increment of
    -- the backoff is positive, and its limit is positive and less than 2 ^ 32 - 2, the receiving thread
    -- ends with the state disconnected, if it has one round more than the limit has milliseconds. It
    -- has tried to receive at least once, and at most once more than the limit has milliseconds.
    pub gthread_run-gives_up :
        (rounds : ℕ) (w : W env)
        → IsPolling env client (some retry_at_once) config w
        → should_recv env w ≡ true
        → in_state env (disconnecting + disconnected) w ≡ false
        → m + 2 ≤ rounds
        → (w' : W env) × (gthread_run env fuel rounds w ≡ done (tt, w'))
          × (w'.h.conn.state ≡ disconnected)
          × (w.h.conn.msg_id_seed < w'.h.conn.msg_id_seed)
          × (w'.h.conn.msg_id_seed ≤ w.h.conn.msg_id_seed + 2 * (m + 2))
    unfolding gthread_run conn_set_state
    gthread_run-gives_up rounds w p receiving staying enough =
        let (w', run, more, few) =
          loop_ends rounds 1 (pos 0) w p receiving staying (omega arith) (omega arith) in
        (
          put_conn w' (conn_set_state w'.h.conn disconnected),
          and_then_step _ run,
          refl,
          more,
          omega arith,
        )
