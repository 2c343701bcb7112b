-- ===== src/Receiving/Delivering.antt =====
-- What the receiving loop puts into the inbox while the server answers each connect request.
use mathlib.Core.List.{append_assoc, append-nil}
use c_cometd_client.Prelude.{
  ℕ, zero, suc, ◌+◌, ◌≡◌, ◌∙◌, refl, ap, sym, arith, true, false, List, [], ◌∷◌, ◌++◌, ℤ, pos,
  length, length-append,
}
use c_cometd_client.Conn.{disconnected, disconnecting, connected}
use c_cometd_client.State.{Env, Post}
use c_cometd_client.Inbox.Fifo.{inbox_push-append}
use c_cometd_client.Client.{W, in_state}
use c_cometd_client.Receiving.{should_recv, gthread_loop}
use c_cometd_client.Receiving.Serving.{
  IsServing, IsListening, polled, served_round, served_round-IsListening, connected_receives,
  connected_stays, gthread_loop-serves_one,
}

module _ (env : Env) (s : IsServing env) where
  open env use {json}
  open json use {Node, get_elements}

  -- The messages that the server sent, without the connect responses, in its replies to the new requests,
  -- of which the newest stands first, after the old ones.
  abbrev pub delivered : List Post → List Post → List Node
  delivered [] old = []
  delivered (post ∷ new) old = delivered new old ++ (s.serve (new ++ old) post).others

  delivered-append :
      (new : List Post) (post : Post) (old : List Post)
      → delivered (new ++ post ∷ []) old ≡ (s.serve old post).others ++ delivered new (post ∷ old)
  delivered-append [] post old = sym (append-nil _)
  delivered-append (n ∷ new) post old =
      rw (delivered-append new post old, append_assoc new (post ∷ []) old)
        (append_assoc ((s.serve old post).others) (delivered new (post ∷ old)) _)

  -- A client receives by long polling, waits by usleep, has no extension, hears connect responses with
  -- its own handler alone, and is in a state in which it receives and not leaving. The server answers
  -- every request with a payload whose messages all name a channel and whose last connect message is a
  -- successful response without advice. Then the receiving loop goes on at its start after any positive
  -- number of rounds: the state is connected, each round made one request, and the inbox has, behind
  -- what it had, all the messages of the payloads but those connect responses, in the order in which
  -- they were sent. The extensions and the table are as before.
  pub gthread_loop-serves :
      (n rounds fuel attempt : ℕ) (backoff : ℤ) (w : W env)
      → IsListening env w
      → should_recv env w ≡ true
      → in_state env (disconnecting + disconnected) w ≡ false
      → (w' : W env) × (new : List Post) × (gthread_loop env fuel (suc n + rounds) attempt backoff w
          ≡ gthread_loop env fuel rounds 1 (pos 0) w')
        × (w'.h.conn.state ≡ connected)
        × (w'.posts ≡ new ++ w.posts)
        × (length new ≡ suc n)
        × (w'.h.inbox ≡ w.h.inbox ++ delivered new w.posts)
        × (w'.h.exts ≡ w.h.exts)
        × (w'.h.subscriptions ≡ w.h.subscriptions)
  gthread_loop-serves zero rounds fuel attempt backoff w p receiving staying =
      let e : suc zero + rounds ≡ suc rounds = omega arith in
      (
        served_round env s backoff w,
        polled env s w ∷ [],
        rw e (gthread_loop-serves_one env s fuel rounds attempt backoff w p receiving staying),
        refl,
        refl,
        refl,
        inbox_push-append w.h.inbox _,
        refl,
        refl,
      )
  gthread_loop-serves (suc n) rounds fuel attempt backoff w p receiving staying =
      let w₁ = served_round env s backoff w in
      let (w', new, run, state, posts, count, inbox, exts, table) =
        gthread_loop-serves n rounds fuel 1 (pos 0) w₁
          (served_round-IsListening env s fuel backoff w p) (connected_receives env s fuel w₁ refl)
          (connected_stays env s fuel w₁ refl) in
      let e : suc (suc n) + rounds ≡ suc (suc n + rounds) = omega arith in
      (
        w',
        new ++ polled env s w ∷ [],
        rw e (
            gthread_loop-serves_one env s fuel (suc n + rounds) attempt backoff w p receiving
              staying
            ∙ run),
        state,
        posts ∙ sym (append_assoc new (polled env s w ∷ []) w.posts),
        omega (arith, length-append new (polled env s w ∷ []), count),
        inbox
            ∙ ap (λ q. q ++ delivered new w₁.posts) (inbox_push-append w.h.inbox _)
            ∙ append_assoc w.h.inbox _ (delivered new w₁.posts)
            ∙ ap (◌++◌ w.h.inbox) (sym (delivered-append new (polled env s w) w.posts)),
        exts,
        table,
      )
