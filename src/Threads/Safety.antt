-- ===== src/Threads/Safety.antt =====
-- What holds however the two threads interleave.
use c_cometd_client.Prelude.{
  ℕ, ◌≡◌, refl, arith, Bool, true, false, Bool-cases, inl, inr, ℤ, is_minus_one,
}
use c_cometd_client.Conn.{disconnected, conn_set_state}
use c_cometd_client.State.{Env}
use c_cometd_client.Client.{W}
use c_cometd_client.Receiving.{next_backoff}
use c_cometd_client.Threads.{
  Receiver, testing, ended, Application, idle, returned, System, chosen, at, Step, Steps, goes_on,
  leaves_loop, receives, processes, tests, responds, processes_null, chooses, finishes, disconnects,
  joins, none_more, one_more,
}

module _ (env : Env) where
  abbrev pub is_ended : Receiver env → Bool
  is_ended ended = true
  is_ended _ = false

  abbrev pub is_returned : Application env → Bool
  is_returned returned = true
  is_returned _ = false

  -- The receiving thread ends in the state disconnected, and a call that has returned has joined it.
  record Settled (s : System env) : Type 0 where
    over : is_ended s.receiver ≡ true → s.world.h.conn.state ≡ disconnected
    waited : is_returned s.application ≡ true → is_ended s.receiver ≡ true

  chosen-goes_on : (p : ℤ × ℕ) → is_ended (chosen env p) ≡ false
  chosen-goes_on (backoff, attempt) = elim (Bool-cases (is_minus_one backoff)) [
    | inl over ↦ rw over refl
    | inr more ↦ rw more refl
  ]

  -- A receiving thread that goes on was not joined.
  Settled-going :
      (s t : System env)
      → Settled s
      → is_ended s.receiver ≡ false
      → is_ended t.receiver ≡ false
      → s.application ≡ t.application
      → Settled t
  Settled-going s t h going still same = record {
    over = λ d. ground arith;
    waited = λ d. ground (arith, h.waited (rw same d));
  }

  Step-Settled : (fuel : ℕ) (s t : System env) → Step env fuel s t → Settled s → Settled t
  unfolding conn_set_state
  Step-Settled fuel s t (goes_on e) h = Settled-going _ _ h refl refl refl
  Step-Settled fuel s t (leaves_loop e) h = Settled-going _ _ h refl refl refl
  Step-Settled fuel s t (receives e) h = Settled-going _ _ h refl refl refl
  Step-Settled fuel s t (processes e) h = Settled-going _ _ h refl refl refl
  Step-Settled fuel s t (tests r) h = Settled-going _ _ h refl refl refl
  Step-Settled fuel s t (responds e) h = Settled-going _ _ h refl refl refl
  Step-Settled fuel s t (processes_null e) h = Settled-going _ _ h refl refl refl
  Step-Settled fuel s t (chooses w attempt) h =
      Settled-going _ _ h refl (chosen-goes_on (next_backoff env fuel attempt w)) refl
  Step-Settled fuel s t finishes h = record { over = λ d. refl; waited = λ d. refl }
  Step-Settled fuel s t disconnects h = record { over = λ d. refl; waited = λ d. ground arith }
  Step-Settled fuel s t joins h = record { over = λ d. h.over refl; waited = λ d. refl }

  Steps-Settled : (fuel : ℕ) (s t : System env) → Steps env fuel s t → Settled s → Settled t
  Steps-Settled fuel s t none_more h = h
  Steps-Settled fuel s t (one_more step steps) h =
      Steps-Settled fuel _ t steps (Step-Settled fuel s _ step h)

  -- However the steps of the receiving thread and of a call of `cometd_disconnect` interleave, from the
  -- start of the thread's loop and before the call: where the call has returned, the thread has ended
  -- and the state is disconnected. The processing of a message is one step, or two where
  -- `cometd_process_connect` alone hears it.
  pub Steps-IsDisconnected :
      (fuel attempt : ℕ) (backoff : ℤ) (w : W env) (s : System env)
      → Steps env fuel (at env w (testing attempt backoff) idle) s
      → is_returned s.application ≡ true
      → (is_ended s.receiver ≡ true) × (s.world.h.conn.state ≡ disconnected)
  Steps-IsDisconnected fuel attempt backoff w s steps back =
      let start : Settled (at env w (testing attempt backoff) idle) = record {
        over = λ d. ground arith;
        waited = λ d. ground arith;
      } in
      let h = Steps-Settled fuel _ s steps start in (h.waited back, h.over (h.waited back))
