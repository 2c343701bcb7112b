-- ===== src/Receiving/Listening.antt =====
-- `cometd_listen`: each message of the inbox goes to the application's callback.
use c_cometd_client.Prelude.{
  ℕ, zero, suc, ◌+◌, ◌≤◌, ◌≡◌, ◌∙◌, refl, ap, sym, subst, arith, String, false, some, List, [], ◌∷◌,
  All, length, done, and_then_step,
}
use c_cometd_client.Conn.Types.{success}
use c_cometd_client.Conn.{uninitialized, disconnected, disconnecting}
use c_cometd_client.State.Types.{Subscription, Listeners, foreign}
use c_cometd_client.State.{Env}
use c_cometd_client.Msg.{msg_channel}
use c_cometd_client.Event.{listener_get}
use c_cometd_client.Inbox.{inbox_take}
use c_cometd_client.Client.{W, in_state, run_callback, process_msg, handshake}
use c_cometd_client.Client.Dispatch.{process_msg-alone}
use c_cometd_client.Receiving.{drain, listen}

module _ (env : Env) where
  open env use {json}
  open json use {Node}

  -- A callback of the application that ends with success and leaves the inbox, the extensions and the table
  -- of subscriptions as they are.
  pub record Notes (n : ℕ) (note : Node → W env → W env) : Type 0 where
    pub called : (msg : Node) (w : W env) → env.callback n msg w ≡ done (success, note msg w)
    pub inbox : (msg : Node) (w : W env) → (note msg w).h.inbox ≡ w.h.inbox
    pub exts : (msg : Node) (w : W env) → (note msg w).h.exts ≡ w.h.exts
    pub table : (msg : Node) (w : W env) → (note msg w).h.subscriptions ≡ w.h.subscriptions

  -- A message that one subscription hears, with the application's callback.
  pub record HeardBy (n : ℕ) (t : Listeners) (msg : Node) : Type 0 where
    pub channel : String
    pub subscription : Subscription
    pub named : msg_channel json (some msg) ≡ some channel
    pub heard : listener_get env.strings t channel ≡ done (subscription ∷ [])
    pub handled : subscription.callback ≡ foreign n

  abbrev pub with_inbox : W env → List Node → W env
  with_inbox w queue = record w { h = record w.h { inbox = queue } }

  -- The callback on each message, in their order; each is taken out of the inbox before its call.
  abbrev pub noted : (Node → W env → W env) → List Node → W env → W env
  noted note [] w = with_inbox w []
  noted note (msg ∷ msgs) w = noted note msgs (note msg (with_inbox w msgs))

  module _ (fuel n : ℕ) (note : Node → W env → W env) (p : Notes n note) where
    process_msg-noted :
        (msg : Node) (w : W env)
        → w.h.exts ≡ []
        → HeardBy n w.h.subscriptions msg
        → process_msg env (handshake env fuel) msg w ≡ done ((success, msg), note msg w)
    unfolding run_callback
    process_msg-noted msg w none_there h =
        process_msg-alone env (handshake env fuel) msg h.channel h.subscription w (note msg w)
          success none_there h.named h.heard
          (ap (λ c. run_callback env (handshake env fuel) msg c w) h.handled ∙ p.called msg w)

    noted_empty : (msgs : List Node) (w : W env) → (noted note msgs w).h.inbox ≡ []
    noted_empty [] w = refl
    noted_empty (msg ∷ msgs) w = noted_empty msgs (note msg (with_inbox w msgs))

    -- The inner loop, from a queue that is the inbox.
    drain-noted :
        (msgs : List Node) (rounds : ℕ) (w : W env)
        → w.h.inbox ≡ msgs
        → suc (length msgs) ≤ rounds
        → w.h.exts ≡ []
        → All (HeardBy n w.h.subscriptions) msgs
        → drain env fuel rounds w ≡ done (tt, noted note msgs w)
    unfolding drain inbox_take
    drain-noted msgs zero w e enough none_there h = absurd (omega (arith, enough))
    drain-noted [] (suc rounds) w e enough none_there h = rw e refl
    drain-noted (msg ∷ msgs) (suc rounds) w e enough none_there (h, hs) =
        let v = with_inbox w msgs in
        rw e (
          and_then_step (λ _. drain env fuel rounds) (process_msg-noted msg v none_there h)
          ∙ drain-noted msgs rounds (note msg v) (p.inbox msg v) (omega (arith, enough))
              (p.exts msg v ∙ none_there)
              (subst (λ t. All (HeardBy n t) msgs) (sym (p.table msg v)) hs))

    -- The client has no extension, the state is not one in which listening stops, and each message of the
    -- inbox is heard by one subscription, with a callback of the application that ends with success
    -- and leaves the inbox, the extensions and the table as they are. Then a round of `cometd_listen`
    -- calls it on every message of the inbox, in order and each once, and listening goes on with the
    -- inbox that the last call found: an empty one.
    pub listen-notes :
        (rounds : ℕ) (w : W env)
        → suc (length w.h.inbox) ≤ rounds
        → w.h.exts ≡ []
        → in_state env (disconnected + disconnecting + uninitialized) w ≡ false
        → All (HeardBy n w.h.subscriptions) w.h.inbox
        → (listen env fuel (suc rounds) w ≡ listen env fuel rounds (noted note w.h.inbox w))
          × ((noted note w.h.inbox w).h.inbox ≡ [])
    unfolding listen
    listen-notes rounds w enough none_there goes_on h = (
      rw goes_on (
          and_then_step (λ _. listen env fuel rounds)
            (drain-noted w.h.inbox rounds w refl enough none_there h)),
      noted_empty w.h.inbox w,
    )
