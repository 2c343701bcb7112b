-- ===== src/Session/Connecting.antt =====
-- `cometd_connect`, with a server that answers and one that cannot be reached.
use c_cometd_client.Prelude.{
  ℕ, suc, ◌+◌, ◌<◌, ◌≤◌, ◌≡◌, ◌∙◌, refl, ap, String, true, false, Option, some, ◌==◌, bit_and, pos,
  ◌^◌, done, and_then_step, and_then-reads, non_null,
}
use c_cometd_client.Libs.Json.{JsonLaws}
use c_cometd_client.Conn.Types.{Code, success, is_success, Transport, Advice}
use c_cometd_client.Conn.{connected, conn_set_state}
use c_cometd_client.State.Types.{Config, Loop, gthread, thread_running}
use c_cometd_client.State.{Env}
use c_cometd_client.Http.Failures.{IsUnreachable}
use c_cometd_client.Client.{W}
use c_cometd_client.Client.Online.{IsWelcome, welcomed, handshake-welcomed}
use c_cometd_client.Client.Offline.{IsOffline, handshake_gives_up}
use c_cometd_client.Session.{call_start, loop_start, start_result, start_loop, connect}

module _ (env : Env) where
  -- The client whose receiving thread runs, in the state connected.
  abbrev pub started : W env → W env
  started w = record w {
    h = record w.h {
      conn = record w.h.conn { state = connected };
      loop = record w.h.loop { thread = thread_running };
    };
  }

  module _ (fuel : ℕ) where
    start_loop-started :
        (w : W env)
        → w.h.loop.start ≡ some gthread
        → start_loop env fuel success w ≡ done (success, started w)
    unfolding loop_start conn_set_state
    start_loop-started w e =
        let w₁ = record w {
          h = record w.h { loop = record w.h.loop { thread = thread_running } };
        } in
        let starts : loop_start env fuel w ≡ done (0, w₁) =
          and_then-reads (λ (w : W env). non_null w.h.loop.start) w gthread (call_start env fuel)
            (ap non_null e) in
        and_then_step (start_result env fuel) starts

    start_loop_of_failure :
        (code : Code) (w : W env)
        → is_success code ≡ false
        → start_loop env fuel code w ≡ done (code, w)
    start_loop_of_failure success w e = cc
    start_loop_of_failure code w e = refl

  -- A client has no extension and no advice, waits by usleep, is neither in the state handshake
  -- success nor connected, and hears handshake responses with its own handler alone. Its server
  -- answers the next handshake with a status from 200 to 299 and one successful response, which
  -- names a client id and a registered transport and has advice that can be read, or none. Where its
  -- run loop starts by the thread of src/loops/gthread.c too, cometd_connect ends with success: that
  -- transport, id and advice are set, the receiving thread runs, and the state is connected.
  pub connect-welcomed :
      (laws : JsonLaws env.json) (fuel : ℕ) (w : W env) (body : String) (t : Transport)
      (id : String) (advice : Option Advice)
      → IsWelcome env laws w body t id advice
      → w.h.loop.start ≡ some gthread
      → connect env (suc (suc fuel)) w
        ≡ done (success, started (welcomed env laws w body t id advice))
  unfolding connect
  connect-welcomed laws fuel w body t id advice p starts =
      and_then_step (start_loop env (suc (suc fuel)))
        (handshake-welcomed env laws fuel w body t id advice p)
      ∙ start_loop-started (suc (suc fuel)) (welcomed env laws w body t id advice) starts

  -- Where the server cannot be reached, the client has no advice, no extension but the logger sees what
  -- goes out, the client waits by usleep, the increment of the backoff is positive, its limit is positive and less than 2 ^ 32 - 1, and the state is neither
  -- handshake success nor connected, connecting ends, with as much fuel as the limit has
  -- milliseconds, in a code that is not success, and the client has the state, the transport, the
  -- advice, the run loop and the configuration that it had.
  pub connect_gives_up :
      (unreachable : IsUnreachable env) (config : Config) (i m state fuel : ℕ)
      (t : Option Transport) (l : Loop) (w : W env)
      → config.backoff_increment ≡ pos (suc i)
      → config.max_backoff ≡ pos (suc m)
      → m + 2 < 2 ^ 32
      → (bit_and state 12 == 0) ≡ true
      → m ≤ fuel
      → IsOffline env config state t l w
      → (code : Code) × (w' : W env) × (connect env (suc fuel) w ≡ done (code, w'))
        × (is_success code ≡ false)
        × IsOffline env config state t l w'
  unfolding connect
  connect_gives_up unreachable config i m state fuel t l w increment limit small idle enough o =
      let (code, w', run, failure, o', more, few) =
        handshake_gives_up env unreachable config i m state fuel t l w increment limit small idle
          enough o in
      (
        code,
        w',
        and_then_step (start_loop env (suc fuel)) run
            ∙ start_loop_of_failure (suc fuel) code w' failure,
        failure,
        o',
      )
