-- ===== src/Client/Offline.antt =====
-- The handshake while the server cannot be reached: it tries, backs off, and gives up.
use c_cometd_client.Prelude.{
  ℕ, zero, suc, ◌+◌, ◌*◌, ◌%◌, ◌^◌, ◌≤◌, ◌<◌, ◌≡◌, ◌∙◌, refl, ap, Bool-cases, true, false, Option,
  none, some, All, inl, inr, ℤ, pos, bit_and, ◌==◌, if◌then◌else◌, ltb, is_minus_one, arith, done,
  Cmd, pure,
}
use c_cometd_client.Conn.Types.{Code, success, unknown, is_success, Transport}
use c_cometd_client.State.Types.{Config, Loop, gthread}
use c_cometd_client.State.{Env, put_conn}
use c_cometd_client.Msg.{msg_wrap, next_id}
use c_cometd_client.Backoff.{minus_one, get_backoff}
use c_cometd_client.Conn.{conn_is_state}
use c_cometd_client.Backoff.Bounds.{compute_backoff-eq}
use c_cometd_client.Http.Failures.{IsUnreachable, failed, http_post_msg-fails}
use c_cometd_client.Ext.Logging.{IsLogging, ext_fire-IsLogging}
use c_cometd_client.Client.Waiting.{slept, loop_wait-gthread}
use c_cometd_client.Messages.{handshake_object, new_handshake_message}
use c_cometd_client.Client.{
  W, should_handshake, send_msg_sync, need_transport, impl_handshake, handshake_round,
  handshake_loop, handshake,
}

need_transport_of_failure :
    (env : Env) (h : Cmd (W env) Code) (code : Code) (t : Option Transport)
    → is_success code ≡ false
    → need_transport env h code t ≡ code
need_transport_of_failure env h success t e = cc
need_transport_of_failure env h code t e = refl

module _ (env : Env) where
  open env use {json}

  -- No extension but the logger sees what goes out, there is no advice, the client waits by usleep, and it is in
  -- this state, with this transport and this run loop.
  pub record IsOffline (config : Config) (state : ℕ) (t : Option Transport) (l : Loop) (w : W env)
      : Type 0 where
    pub logging : All (IsLogging env) w.h.exts
    pub waits : l.wait ≡ some gthread
    pub in_loop : w.h.loop ≡ l
    pub no_advice : w.h.conn.advice ≡ none
    pub configured : w.h.config ≡ config
    pub in_this : w.h.conn.state ≡ state
    pub sends_by : w.h.conn.transport ≡ t

  module _ (unreachable : IsUnreachable env) (inner : Cmd (W env) Code) where
    impl_handshake-fails :
        (config : Config) (state : ℕ) (t : Option Transport) (l : Loop) (w : W env)
        → IsOffline config state t l w
        → (code : Code) × (w' : W env) × (impl_handshake env inner w ≡ done (code, w'))
          × (is_success code ≡ false)
          × IsOffline config state t l w'
          × (w'.h.conn.msg_id_seed ≡ w.h.conn.msg_id_seed + 1)
    unfolding impl_handshake new_handshake_message next_id send_msg_sync
    impl_handshake-fails config state t l w o =
        let seed = w.h.conn.msg_id_seed + 1 in
        let msg = json.take_object (handshake_object json (pos seed) w.h.config.transports) in
        let w₁ = put_conn w (record w.h.conn { msg_id_seed = seed }) in
        let (printed, logged) = ext_fire-IsLogging env w.h.exts msg w₁ o.logging in
        let w₂ = record w₁ { printed = printed } in
        let (posts, e, run, failure) = http_post_msg-fails env unreachable (msg_wrap json msg) w₂ in
        (
          e.code,
          failed env w₂ posts e,
          rw (logged, run, need_transport_of_failure env inner e.code w.h.conn.transport failure),
          failure,
          record {
            logging = o.logging;
            waits = o.waits;
            in_loop = o.in_loop;
            sends_by = o.sends_by;
            no_advice = o.no_advice;
            configured = o.configured;
            in_this = o.in_this;
          },
          refl,
        )

    module _ (config : Config) (i m state : ℕ) (t : Option Transport) (l : Loop)
        (increment : config.backoff_increment ≡ pos (suc i))
        (limit : config.max_backoff ≡ pos (suc m)) (small : m + 2 < 2 ^ 32)
        (idle : (bit_and state 12 == 0) ≡ true) where
      wants_more : (w : W env) → IsOffline config state t l w → should_handshake env w ≡ true
      unfolding should_handshake conn_is_state
      wants_more w o = simp (o.no_advice, o.in_this, idle)

      next_backoff :
          (w : W env) (attempt : ℕ)
          → IsOffline config state t l w
          → get_backoff w.h.config w.h.conn.advice attempt
            ≡ (if ltb (attempt * suc i) (suc m) then pos (attempt * suc i) else minus_one)
      unfolding get_backoff
      next_backoff w attempt o =
          simp (o.no_advice, o.configured) (compute_backoff-eq config i m attempt increment limit)

      abbrev delay : ℕ → ℤ
      delay attempt = if ltb (attempt * suc i) (suc m) then pos (attempt * suc i) else minus_one

      -- One round fails, and either gives up or goes on after the delay.
      round_fails :
          (rest : ℕ → ℤ → Code → Cmd (W env) Code) (attempt : ℕ) (backoff : ℤ) (w : W env)
          → IsOffline config state t l w
          → (code : Code) × (w' : W env) × (handshake_round env inner rest attempt backoff w
              ≡ (if is_minus_one (delay attempt)
                    then pure code
                    else rest ((attempt + 1) % 2 ^ 32) (delay attempt) code)
                  w')
            × (is_success code ≡ false)
            × IsOffline config state t l w'
            × (w'.h.conn.msg_id_seed ≡ w.h.conn.msg_id_seed + 1)
      unfolding handshake_round
      round_fails rest attempt backoff w o =
          let w₁ = record w { sleeps = slept backoff w.sleeps } in
          let o₁ : IsOffline config state t l w₁ = record {
            logging = o.logging;
            waits = o.waits;
            in_loop = o.in_loop;
            sends_by = o.sends_by;
            no_advice = o.no_advice;
            configured = o.configured;
            in_this = o.in_this;
          } in
          let (code, w', run, failure, o', seed) = impl_handshake-fails config state t l w₁ o₁ in
          (
            code,
            w',
            rw (
              loop_wait-gthread env backoff w (ap (λ l. l.wait) o.in_loop ∙ o.waits),
              run,
              next_backoff w' attempt o',
            ),
            failure,
            o',
            seed,
          )

      -- An attempt whose delay is below the limit is below it too.
      below : (attempt : ℕ) → ltb (attempt * suc i) (suc m) ≡ true → attempt + 1 ≤ suc m
      below attempt h = grind arith

      no_wrap : (attempt : ℕ) → attempt ≤ suc m → (attempt + 1) % 2 ^ 32 ≡ attempt + 1
      no_wrap attempt h = omega arith

      loop_gives_up :
          (fuel attempt : ℕ) (backoff : ℤ) (code : Code) (w : W env)
          → IsOffline config state t l w
          → attempt ≤ suc m
          → suc m < attempt + fuel
          → (code' : Code) × (w' : W env) × (handshake_loop env inner fuel attempt backoff code w
              ≡ done (code', w'))
            × (is_success code' ≡ false)
            × IsOffline config state t l w'
            × (w.h.conn.msg_id_seed < w'.h.conn.msg_id_seed)
            × (w'.h.conn.msg_id_seed + attempt ≤ w.h.conn.msg_id_seed + (m + 2))
      unfolding handshake_loop
      loop_gives_up zero attempt backoff code w o low enough = absurd (omega arith)
      loop_gives_up (suc fuel) attempt backoff code w o low enough =
          let (c, w₁, run, failure, o₁, seed) =
            round_fails (handshake_loop env inner fuel) attempt backoff w o in
          elim (Bool-cases (ltb (attempt * suc i) (suc m))) [
            | inr over ↦
                (c, w₁, rw (wants_more w o, run, over), failure, o₁, omega arith, omega arith)
            | inl under ↦
                let (c', w', rest, failure', o', more, few) =
                  loop_gives_up fuel (attempt + 1) (pos (attempt * suc i)) c w₁ o₁
                    (below (attempt) under) (omega arith) in
                (
                  c',
                  w',
                  rw (wants_more w o, run, under, no_wrap attempt low) rest,
                  failure',
                  o',
                  omega arith,
                  omega arith,
                )
          ]

  -- Where the server cannot be reached, the client has no advice, no extension but the logger sees what
  -- goes out, the client waits by usleep, the increment of the backoff is positive, its limit is
  -- positive and less than 2 ^ 32 - 1, and the state is neither handshake success nor connected, the
  -- handshake ends, with as much fuel as the limit has milliseconds, in a code that is not success. It
  -- has made at least one attempt and at most as many as the limit has milliseconds, and the
  -- connection's state, transport and advice, the run loop and the configuration are as before.
  pub handshake_gives_up :
      (unreachable : IsUnreachable env) (config : Config) (i m state fuel : ℕ)
      (t : Option Transport) (l : Loop) (w : W env)
      → config.backoff_increment ≡ pos (suc i)
      → config.max_backoff ≡ pos (suc m)
      → m + 2 < 2 ^ 32
      → (bit_and state 12 == 0) ≡ true
      → m ≤ fuel
      → IsOffline config state t l w
      → (code : Code) × (w' : W env) × (handshake env (suc fuel) w ≡ done (code, w'))
        × (is_success code ≡ false)
        × IsOffline config state t l w'
        × (w.h.conn.msg_id_seed < w'.h.conn.msg_id_seed)
        × (w'.h.conn.msg_id_seed ≤ w.h.conn.msg_id_seed + (m + 1))
  unfolding handshake
  handshake_gives_up unreachable config i m state fuel t l w increment limit small idle enough o =
      let (code, w', run, failure, o', more, few) =
        loop_gives_up unreachable (handshake env fuel) config i m state t l increment limit small
          idle (suc fuel) 1 (pos 0) unknown w o (omega arith) (omega arith) in
      (code, w', run, failure, o', more, omega arith)
