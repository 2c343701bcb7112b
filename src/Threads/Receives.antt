-- ===== src/Threads/Receives.antt =====
-- The message that a receive takes out of its payload is a connect message.
use c_cometd_client.Prelude.{
  ℕ, ◌+◌, ◌≡◌, ◌⊎◌, ◌∙◌, refl, ap, subst, sym, arith, inl, inr, Option, Option-cases, none, some,
  List, [], ◌∷◌, ℤ, Outcome, done, crash, starved, Cmd, reads, pure, ◌>>=◌, and_then, All,
  done-injective,
}
use c_cometd_client.State.{Env}
use c_cometd_client.Msg.{msg_channel, find_connect, msg_extract_connect}
use c_cometd_client.Msg.Extracting.{
  IsConnect, HasChannel, Extracted, absent, present, msg_extract_connect-Extracted,
}
use c_cometd_client.Client.{W, loop_wait}
use c_cometd_client.Receiving.{recv, push_inbox}
use c_cometd_client.Threads.{receive_connect}

-- What a command gives, where it gives something.
record Gives {S A : Type 0} (P : A → Type 0) (m : Cmd S A) : Type 0 where
  pub at : (s s' : S) (a : A) → m s ≡ done (a, s') → P a

module _ {S : Type 0} {A B : Type 0} (P : B → Type 0) where
  then-Gives :
      (p : Outcome (A × S)) (k : A → Cmd S B)
      → ((a : A) → Gives P (k a))
      → (s' : S) (b : B) → and_then p k ≡ done (b, s')
      → P b
  then-Gives (done (a, s)) k h s' b e = (h a).at s s' b e
  then-Gives crash k h s' b e = absurd (ground arith)
  then-Gives starved k h s' b e = absurd (ground arith)

  bind-Gives : (m : Cmd S A) (k : A → Cmd S B) → ((a : A) → Gives P (k a)) → Gives P (m >>= k)
  bind-Gives m k h = record { at = λ s s' b e. then-Gives (m s) k h s' b e }

  read-Gives :
      (o : Outcome A) (k : A → Cmd S B)
      → ((a : A) → o ≡ done a → Gives P (k a))
      → Gives P (reads (λ s. o) >>= k)
  read-Gives (done a) k h = record { at = (h a refl).at }
  read-Gives crash k h = record { at = λ s s' b e. absurd (ground arith) }
  read-Gives starved k h = record { at = λ s s' b e. absurd (ground arith) }

module _ (env : Env) where
  open env use {json}
  open json use {Node, get_elements}

  -- Nothing, or a connect message.
  abbrev pub IsConnectOrNone : Option Node → Type 0
  IsConnectOrNone none = Unit
  IsConnectOrNone (some msg) = IsConnect json msg

  named_or_crash :
      (msgs : List Node)
      → All (HasChannel json) msgs
        ⊎ ((i : ℕ) (index : Option ℕ) → find_connect json msgs i index ≡ crash)
  unfolding find_connect
  named_or_crash [] = inl tt
  named_or_crash (m ∷ msgs) = elim (Option-cases (msg_channel json (some m))) [
    | inl unnamed ↦ inr (λ i index. rw (unnamed, find_connect) refl)
    | inr (c, named) ↦ elim (named_or_crash msgs) [
      | inl all ↦ inl ((c, named), all)
      | inr fails ↦ inr (λ i index. rw (named, find_connect) (fails (i + 1) _))
    ]
  ]

  Extracted-IsConnectOrNone :
      (payload : Node) (r : Option Node × Node) → Extracted json payload r → IsConnectOrNone r.0
  Extracted-IsConnectOrNone payload r (absent all) = tt
  Extracted-IsConnectOrNone payload r (present msg rest last) = last.connect

  extract-IsConnectOrNone :
      (payload : Node) (r : Option Node × Node)
      → msg_extract_connect json payload ≡ done r
      → IsConnectOrNone r.0
  unfolding msg_extract_connect
  extract-IsConnectOrNone payload r e = elim (named_or_crash (get_elements payload)) [
    | inl all ↦
        let (q, run, split) = msg_extract_connect-Extracted json payload all in
        subst (λ q. IsConnectOrNone q.0) (done-injective _ _ (sym run ∙ e))
          (Extracted-IsConnectOrNone payload q split)
    | inr fails ↦
        let failed : msg_extract_connect json payload ≡ crash =
          rw (fails 0 none, msg_extract_connect) refl in
        absurd (ground (arith, failed, e))
  ]

  pub receive_connect-IsConnectOrNone :
      (backoff : ℤ) (w w' : W env) (connect : Option Node)
      → receive_connect env backoff w ≡ done (connect, w')
      → IsConnectOrNone connect
  unfolding receive_connect
  receive_connect-IsConnectOrNone backoff w w' connect e =
      let given : (p : Option Node × Node)
          → IsConnectOrNone p.0
          → Gives IsConnectOrNone (pure {S = W env} p.0) =
        λ p h. record {
          at = λ s s' a d.
              subst IsConnectOrNone (ap (λ q. q.0) (done-injective (p.0, s) (a, s') d)) h;
        } in
      (bind-Gives IsConnectOrNone (loop_wait env backoff) _ (λ u.
          bind-Gives IsConnectOrNone (recv env) _ (λ payload.
            read-Gives IsConnectOrNone (msg_extract_connect json payload) _ (λ p d.
              bind-Gives IsConnectOrNone (push_inbox env p.1) (λ u. pure p.0)
                (λ u. given p (extract-IsConnectOrNone payload p d)))))).at
        w w' connect e
