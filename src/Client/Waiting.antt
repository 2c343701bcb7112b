-- ===== src/Client/Waiting.antt =====
-- `cometd_loop_wait` of the loop in src/loops/gthread.c.
use c_cometd_client.Prelude.{
  zero, suc, ◌≡◌, ◌∙◌, refl, Option, some, List, ◌∷◌, ℤ, pos, negsuc, done, reads, and_then,
  non_null,
}
use c_cometd_client.State.Types.{LoopFunc, gthread}
use c_cometd_client.State.{Env}
use c_cometd_client.Client.{W, gthread_wait, call_wait, loop_wait}

-- The times that were slept, after a wait: only a positive number of milliseconds is slept.
abbrev pub slept : ℤ → List ℤ → List ℤ
slept (pos (suc n)) sleeps = pos (suc n) ∷ sleeps
slept _ sleeps = sleeps

module _ (env : Env) where
  gthread_wait-slept :
      (millis : ℤ) (w : W env)
      → gthread_wait env millis w ≡ done (tt, record w { sleeps = slept millis w.sleeps })
  unfolding gthread_wait
  gthread_wait-slept (pos zero) w = refl
  gthread_wait-slept (pos (suc n)) w = refl
  gthread_wait-slept (negsuc n) w = refl

  wait_by :
      (f : Option LoopFunc) (millis : ℤ) (w : W env)
      → f ≡ some gthread
      → and_then (reads (λ _. non_null f) w) (λ g. call_wait env g millis)
        ≡ gthread_wait env millis w
  wait_by f millis w e = rw e

  -- The wait sleeps, and changes nothing else.
  pub loop_wait-gthread :
      (millis : ℤ) (w : W env)
      → w.h.loop.wait ≡ some gthread
      → loop_wait env millis w ≡ done (tt, record w { sleeps = slept millis w.sleeps })
  unfolding loop_wait
  loop_wait-gthread millis w e = wait_by w.h.loop.wait millis w e ∙ gthread_wait-slept millis w
