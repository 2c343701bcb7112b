-- ===== src/Threads/Ending.antt =====
-- `cometd_disconnect` away from the test of a connect response's handler: both threads end.
use c_cometd_client.Prelude.{
  ℕ, suc, ◌+◌, ◌≤◌, ◌≡◌, ◌⊎◌, ◌∙◌, refl, ap, sym, subst, arith, true, false, Bool, Bool-cases, inl,
  inr, ℤ, done, done-injective, Keeps, is_minus_one,
}
use c_cometd_client.Conn.Types.{Code}
use c_cometd_client.Conn.{disconnected, conn_set_state}
use c_cometd_client.State.{Env}
use c_cometd_client.Msg.Extracting.{IsConnect}
use c_cometd_client.Client.{W, connect_response, process_msg, process_msg_null, handshake}
use c_cometd_client.Receiving.{next_backoff}
use c_cometd_client.Threads.{
  Receiver, testing, receiving, processing, responding, choosing, finishing, ended, Application,
  idle, joining, returned, System, at, chosen, in_disconnected, Step, Steps, goes_on, leaves_loop,
  receives, processes, tests, responds, processes_null, chooses, finishes, disconnects, joins,
  none_more, one_more,
}
use c_cometd_client.Threads.Leaving.{
  is_past, HearsConnect, HoldsConnect, IsStuck, Leaving, HearsConnect-Same,
  HearsConnect-in_disconnected, HearsConnect-joined, receives_no_more, is_leaving,
  process_msg-quiet, process_msg_null-quiet, moves_on,
}
use c_cometd_client.Threads.Still.{Same, receive_connect-KeepsSame}
use c_cometd_client.Threads.Receives.{receive_connect-IsConnectOrNone}

module _ (env : Env) where
  open env use {json}
  open json use {Node}

  -- The most steps that a thread has left once the state is disconnected, the application's own steps apart.
  abbrev steps_left : Receiver env → ℕ
  steps_left (testing attempt backoff) = 2
  steps_left (receiving attempt backoff) = 6
  steps_left (processing attempt connect) = 5
  steps_left (responding attempt msg leaving) = 4
  steps_left (choosing attempt) = 3
  steps_left finishing = 1
  steps_left ended = 0

  abbrev application_left : Application env → ℕ
  application_left idle = 2
  application_left joining = 1
  application_left returned = 0

  abbrev left : System env → ℕ
  left s = steps_left s.receiver + application_left s.application

  abbrev pub steps_taken : {fuel : ℕ} {s t : System env} → Steps env fuel s t → ℕ
  steps_taken none_more = 0
  steps_taken (one_more step steps) = suc (steps_taken steps)

  chosen-left :
      (p : ℤ × ℕ)
      → (steps_left (chosen env p) ≤ 2)
        × (is_past env (chosen env p) ≡ false)
        × HoldsConnect env (chosen env p)
  chosen-left (backoff, attempt) = elim (Bool-cases (is_minus_one backoff)) [
    | inl over ↦ rw over (omega arith, refl, tt)
    | inr more ↦ rw more (omega arith, refl, tt)
  ]

  most : (r : Receiver env) → steps_left r ≤ 6
  most (testing attempt backoff) = omega arith
  most (receiving attempt backoff) = omega arith
  most (processing attempt connect) = omega arith
  most (responding attempt msg leaving) = omega arith
  most (choosing attempt) = omega arith
  most finishing = omega arith
  most ended = omega arith

  module _ (waits : (n : ℕ) (millis : ℤ) → Keeps Same (env.foreign_wait n millis))
      (recvs : (n : ℕ) → Keeps Same (env.foreign_recv n)) (fuel : ℕ) where
    -- A connect response that is processed while the client is leaving changes nothing.
    process_msg-leaving :
        (msg msg' : Node) (code : Code) (w w' : W env)
        → w.h.conn.state ≡ disconnected
        → HearsConnect env w
        → IsConnect json msg
        → process_msg env (handshake env fuel) msg w ≡ done ((code, msg'), w')
        → w' ≡ w
    process_msg-leaving msg msg' code w w' e h named run =
        ap (λ p. p.1) (done-injective _ _ (sym run ∙ process_msg-quiet env fuel msg w e h named))

    process_msg_null-leaving :
        (w w' : W env) (code : Code)
        → HearsConnect env w
        → process_msg_null env (handshake env fuel) w ≡ done (code, w')
        → w' ≡ w
    process_msg_null-leaving w w' code h run =
        ap (λ p. p.1) (done-injective _ _ (sym run ∙ process_msg_null-quiet env fuel w h))

    responded-leaving :
        (attempt : ℕ) (msg : Node) (leaving : Bool) (w w' : W env) (code : Code)
        → is_past env (responding attempt msg leaving) ≡ false
        → connect_response env (handshake env fuel) msg leaving w ≡ done (code, w')
        → w' ≡ w
    responded-leaving attempt msg true w w' code before e =
        ap (λ p. p.1) (sym (done-injective _ _ e))
    responded-leaving attempt msg false w w' code before e = absurd (ground arith)

    -- The receiving thread goes on in the world as it was.
    Leaving-moved :
        (w w' : W env) (r r' : Receiver env) (a : Application env)
        → w' ≡ w
        → Leaving env (at env w r a)
        → is_past env r' ≡ false
        → HoldsConnect env r'
        → Leaving env (at env w' r' a)
    Leaving-moved w w' r r' a e h before holds = record {
      state = ap (λ w. w.h.conn.state) e ∙ h.state;
      called = h.called;
      before = before;
      hears = subst (HearsConnect env) (sym e) h.hears;
      holds = holds;
    }

    -- Each step leaves fewer to go.
    Step-Leaving :
        (s t : System env)
        → Step env fuel s t
        → Leaving env s
        → Leaving env t × (suc (left t) ≤ left s)
    unfolding conn_set_state
    Step-Leaving s t (goes_on {w = w} e) h = absurd (ground (arith, receives_no_more env w h.state))
    Step-Leaving s t (leaves_loop e) h = (Leaving-moved _ _ _ _ _ refl h refl tt, omega arith)
    Step-Leaving s t (receives {w = w} {w' = w'} {backoff = backoff} {connect = connect} e) h =
        let same = (receive_connect-KeepsSame env waits recvs backoff).at w w' connect e in
        (
          record {
            state = same.state ∙ h.state;
            called = h.called;
            before = refl;
            hears = HearsConnect-Same env w w' same h.hears;
            holds = receive_connect-IsConnectOrNone env backoff w w' connect e;
          },
          omega arith,
        )
    Step-Leaving s t (processes {msg = msg} {msg' = msg'} {code = code} e) h =
        let same = process_msg-leaving msg msg' code _ _ h.state h.hears h.holds e in
        (Leaving-moved _ _ _ _ _ same h refl tt, omega arith)
    Step-Leaving s t (tests {w = w} r) h =
        (Leaving-moved _ _ _ _ _ refl h (rw (is_leaving env w h.state) refl) tt, omega arith)
    Step-Leaving s t (responds {attempt = n} {msg = msg} {leaving = b} {code = code} e) h =
        let same = responded-leaving n msg b _ _ code h.before e in
        (Leaving-moved _ _ _ _ _ same h refl tt, omega arith)
    Step-Leaving s t (processes_null {code = code} e) h =
        let same = process_msg_null-leaving _ _ code h.hears e in
        (Leaving-moved _ _ _ _ _ same h refl tt, omega arith)
    Step-Leaving s t (chooses w attempt) h =
        let (few, before, holds) = chosen-left (next_backoff env fuel attempt w) in
        (Leaving-moved _ _ _ _ _ refl h before holds, omega (arith, few))
    Step-Leaving s t (finishes {w = w}) h = (
      record {
        state = refl;
        called = h.called;
        before = refl;
        hears = HearsConnect-in_disconnected env w h.hears;
        holds = tt;
      },
      omega arith,
    )
    Step-Leaving s t disconnects h = absurd (h.called refl)
    Step-Leaving s t (joins {w = w}) h = (
      record {
        state = h.state;
        called = λ e. ground arith;
        before = refl;
        hears = HearsConnect-joined env w h.hears;
        holds = tt;
      },
      omega arith,
    )

    Steps-Leaving :
        (s t : System env) (steps : Steps env fuel s t)
        → Leaving env s
        → Leaving env t × (steps_taken steps + left t ≤ left s)
    Steps-Leaving s t none_more h = (h, omega arith)
    Steps-Leaving s t (one_more {t = u} step steps) h =
        let (h', less) = Step-Leaving s u step h in
        let (h'', few) = Steps-Leaving u t steps h' in (h'', omega (arith, less, few))

    -- Foreign waits and transports leave the state of the connection, the extensions and the
    -- subscriptions as they are. The client has no extension and hears connect responses with its own
    -- handler alone. A call of `cometd_disconnect` sets the state while the receiving thread is anywhere
    -- but past that handler's test whether the client is leaving, and a message that the thread
    -- processes is a connect response. Then no order of the steps of the two threads after that has more
    -- than seven steps, and the state is disconnected after each of them. While the call has not returned
    -- there is a next step, unless the thread is at a receive that does not end.
    pub disconnect-ends :
        (w : W env) (r : Receiver env) (t : System env)
        → HearsConnect env w
        → HoldsConnect env r
        → is_past env r ≡ false
        → (steps : Steps env fuel (at env (in_disconnected env w) r joining) t)
        → (steps_taken steps ≤ 7)
          × (t.world.h.conn.state ≡ disconnected)
          × (is_past env t.receiver ≡ false)
          × ((t.application ≡ returned)
              ⊎ (((u : System env) × Step env fuel t u) ⊎ IsStuck env t.world t.receiver))
    unfolding conn_set_state
    disconnect-ends w r t hears holds before steps =
        let start : Leaving env (at env (in_disconnected env w) r joining) = record {
          state = refl;
          called = λ e. ground arith;
          before = before;
          hears = HearsConnect-in_disconnected env w hears;
          holds = holds;
        } in
        let (h, few) = Steps-Leaving (at env (in_disconnected env w) r joining) t steps start in
        (
          omega (arith, few, most r),
          h.state,
          h.before,
          moves_on env fuel t.world t.receiver t.application h,
        )
