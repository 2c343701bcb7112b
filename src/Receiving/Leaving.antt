-- ===== src/Receiving/Leaving.antt =====
-- `cometd_disconnect` of a client whose run loop was not started.
use c_cometd_client.Prelude.{Bool, true, crash, ◌≡◌, refl, false, some, Cmd}
use c_cometd_client.State.Types.{gthread, thread_unset}
use c_cometd_client.State.{Env}
use c_cometd_client.Client.{W}
use c_cometd_client.Receiving.{loop_stop, disconnect}

module _ (env : Env) where
  -- Disconnecting before a receiving thread was ever started, with the loop of src/loops/gthread.c, joins a
  -- pointer that was never set, whether the client would wait for the server or not.
  pub disconnect-unset :
      (remaining : Cmd (W env) (Unit {0})) (w : W env) (wait_for_server : Bool)
      → w.h.loop.stop ≡ some gthread
      → w.h.loop.thread ≡ thread_unset
      → disconnect env remaining wait_for_server w ≡ crash
  unfolding disconnect loop_stop
  disconnect-unset remaining w true e unset = rw (e, unset) refl
  disconnect-unset remaining w false e unset = rw (e, unset) refl
