-- ===== src/Receiving/Arriving.antt =====
-- From the server to the application: what is received by the one thread and taken by the other.
use c_cometd_client.Prelude.{
  ℕ, suc, ◌+◌, ◌≡◌, ◌∙◌, ap, sym, subst, arith, true, false, List, [], ◌∷◌, ◌++◌, All, ℤ, pos,
  length,
}
use c_cometd_client.Conn.{
  uninitialized, disconnected, disconnecting, connected, conn_is_state, conn_state,
}
use c_cometd_client.State.{Env, Post}
use c_cometd_client.State.Types.{Listeners}
use c_cometd_client.Client.{W, in_state}
use c_cometd_client.Receiving.{should_recv, gthread_loop, listen}
use c_cometd_client.Receiving.Serving.{IsServing, IsListening}
use c_cometd_client.Receiving.Delivering.{delivered, gthread_loop-serves}
use c_cometd_client.Receiving.Listening.{Notes, HeardBy, noted, listen-notes}

All-append : {A : Type 0} (P : A → Type 0) (x y : List A) → All P x → All P y → All P (x ++ y)
All-append P [] y p q = q
All-append P (a ∷ x) y (h, p) q = (h, All-append P x y p q)

module _ (env : Env) (s : IsServing env) where
  open env use {json}
  open json use {Node, get_elements}

  -- Each message of a payload but its last connect response is heard by one subscription, with the
  -- application's callback `n`.
  abbrev pub AllHeard : ℕ → Listeners → Type 0
  AllHeard n t =
      (posts : List Post) (post : Post) → All (HeardBy env n t) (s.serve posts post).others

  delivered-HeardBy :
      (n : ℕ) (t : Listeners) (new old : List Post)
      → AllHeard n t
      → All (HeardBy env n t) (delivered env s new old)
  delivered-HeardBy n t [] old h = tt
  delivered-HeardBy n t (post ∷ new) old h =
      All-append (HeardBy env n t) (delivered env s new old) _ (delivered-HeardBy n t new old h)
        (h (new ++ old) post)

  goes_on :
      (w : W env)
      → w.h.conn.state ≡ connected
      → in_state env (disconnected + disconnecting + uninitialized) w ≡ false
  unfolding conn_is_state conn_state
  goes_on w e = simp e

  -- A client with an empty inbox receives by long polling, waits by usleep, has no extension, hears connect
  -- responses with its own handler alone, and is in a state in which it receives and not leaving. The
  -- server answers every request with a payload whose messages all name a channel and whose last connect
  -- message is a successful response without advice; each other message of a payload is heard by one
  -- subscription with the application's callback `n`, which ends with success and leaves the inbox, the
  -- extensions and the table as they are. Then after any positive number of rounds of the receiving
  -- loop, a request each, a round of `cometd_listen` calls the callback on all those other messages, in
  -- the order in which they were sent and each once, and the inbox that the last call leaves is empty;
  -- both loops go on.
  pub listen-serves :
      (fuel n k rounds attempt : ℕ) (backoff : ℤ) (note : Node → W env → W env) (w : W env)
      → Notes env n note
      → IsListening env w
      → AllHeard n w.h.subscriptions
      → w.h.inbox ≡ []
      → should_recv env w ≡ true
      → in_state env (disconnecting + disconnected) w ≡ false
      → (w' : W env) × (new : List Post) × (gthread_loop env fuel (suc k + rounds) attempt backoff w
          ≡ gthread_loop env fuel rounds 1 (pos 0) w')
        × (length new ≡ suc k)
        × (listen env fuel (suc (suc (length (delivered env s new w.posts)))) w'
            ≡ listen env fuel
                (suc (length (delivered env s new w.posts)))
                (noted env note (delivered env s new w.posts) w'))
        × ((noted env note (delivered env s new w.posts) w').h.inbox ≡ [])
  listen-serves fuel n k rounds attempt backoff note w p q heard empty receiving staying =
      let (w', new, run, state, posts, count, inbox, exts, table) =
        gthread_loop-serves env s k rounds fuel attempt backoff w q receiving staying in
      let msgs = delivered env s new w.posts in
      let e : w'.h.inbox ≡ msgs = inbox ∙ ap (λ q. q ++ msgs) empty in
      let all : All (HeardBy env n w'.h.subscriptions) w'.h.inbox =
        subst (λ q. All (HeardBy env n w'.h.subscriptions) q) (sym e)
          (subst (λ t. All (HeardBy env n t) msgs) (sym table)
            (delivered-HeardBy n w.h.subscriptions new w.posts heard)) in
      let (listened, emptied) =
        listen-notes env fuel n note p (suc (length msgs)) w' (omega (arith, ap length e))
          (exts ∙ q.no_exts) (goes_on w' state) all in
      (
        w',
        new,
        run,
        count,
        subst
            (λ q.
              listen env fuel (suc (suc (length msgs))) w'
              ≡ listen env fuel (suc (length msgs)) (noted env note q w'))
            e listened,
        subst (λ q. (noted env note q w').h.inbox ≡ []) e emptied,
      )
