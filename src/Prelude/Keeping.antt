-- ===== src/Prelude/Keeping.antt =====
-- Relations that a command keeps between the state before it and the state after it, where it ends with
-- a value; one rule for each way to build a command.
use mathlib.Core.Path.{◌≡◌, refl, ap, sym, ◌∙◌, subst}
use mathlib.Core.Bool.{Bool, true, false}
use native.Mathlib.Omega.{arith}
use c_cometd_client.Prelude.Tests.{if◌then◌else◌}
use c_cometd_client.Prelude.Results.{
  Outcome, done, crash, starved, Cmd, pure, and_then, ◌>>=◌, ◌>>◌, reads, modify, gets,
  done-injective,
}

pub record Keeps {S : Type 0} {A : Type 0} (R : S → S → Type 0) (m : Cmd S A) : Type 0 where
  pub at : (s s' : S) (a : A) → m s ≡ done (a, s') → R s s'

-- A relation that holds of a state and itself, and over two steps.
pub record IsPreorder {S : Type 0} (R : S → S → Type 0) : Type 0 where
  pub same : (s : S) → R s s
  pub steps : (s t u : S) → R s t → R t u → R s u

module _ {S : Type 0} (R : S → S → Type 0) where
  done-related :
      {A : Type 0} (s t u : S) (a b : A)
      → ◌≡◌ {A = Outcome (A × S)} (done (a, t)) (done (b, u))
      → R s t
      → R s u
  done-related s t u a b e r = subst (R s) (ap (λ p. p.1) (done-injective _ _ e)) r

  reads_related :
      {A : Type 0} (p : Outcome A) (s s' : S) (b : A)
      → R s s
      → reads (λ _. p) s ≡ done (b, s')
      → R s s'
  reads_related (done a) s s' b r e = done-related s s s' a b e r
  reads_related crash s s' b r e = absurd (ground arith)
  reads_related starved s s' b r e = absurd (ground arith)

  bind_related :
      {A B : Type 0} (o : IsPreorder R) (p : Outcome (A × S)) (k : A → Cmd S B) (s s' : S) (b : B)
      → ((t : S) (a : A) → p ≡ done (a, t) → R s t)
      → ((a : A) → Keeps R (k a))
      → and_then p k ≡ done (b, s')
      → R s s'
  bind_related o (done (a, t)) k s s' b h rest e =
      o.steps s t s' (h t a refl) ((rest a).at t s' b e)
  bind_related o crash k s s' b h rest e = absurd (ground arith)
  bind_related o starved k s s' b h rest e = absurd (ground arith)

  written :
      {A B : Type 0} (p : Outcome A) (g : A → S → S) (s s' : S) (b c : B)
      → ((a : A) → p ≡ done a → R s (g a s))
      → and_then (reads (λ _. p) s) (λ a. modify (g a) >> pure b) ≡ done (c, s')
      → R s s'
  written (done a) g s s' b c h e = done-related s (g a s) s' b c e (h a refl)
  written crash g s s' b c h e = absurd (ground arith)
  written starved g s s' b c h e = absurd (ground arith)

module _ {S : Type 0} {R : S → S → Type 0} where
  -- A write of what was read just before.
  pub Keeps-write :
      {A B : Type 0} (f : S → Outcome A) (g : A → S → S) (b : B)
      → ((s : S) (a : A) → f s ≡ done a → R s (g a s))
      → Keeps R (reads f >>= λ a. modify (g a) >> pure b)
  Keeps-write f g b h = record { at = λ s s' c e. written R (f s) g s s' b c (h s) e }

  -- A step whose outcome is written out.
  pub Keeps-done :
      {A : Type 0} (m : Cmd S A) (a : S → A) (f : S → S)
      → ((s : S) → m s ≡ done (a s, f s))
      → ((s : S) → R s (f s))
      → Keeps R m
  Keeps-done m a f e h = record {
    at = λ s s' b d. done-related R s (f s) s' (a s) b (sym (e s) ∙ d) (h s);
  }

  pub Keeps-modify : (f : S → S) → ((s : S) → R s (f s)) → Keeps R (modify f)
  Keeps-modify f h = record { at = λ s s' b e. done-related R s (f s) s' tt b e (h s) }

  pub Keeps-if :
      {A : Type 0} (b : Bool) (m n : Cmd S A) → Keeps R m → Keeps R n → Keeps R (if b then m else n)
  Keeps-if true m n h k = h
  Keeps-if false m n h k = k

module _ {S : Type 0} {R : S → S → Type 0} ⦃o : IsPreorder R⦄ where
  pub Keeps-pure : {A : Type 0} (a : A) → Keeps R (pure {S = S} a)
  Keeps-pure a = record { at = λ s s' b e. done-related R s s s' a b e (o.same s) }

  pub Keeps-gets : {A : Type 0} (f : S → A) → Keeps R (gets f)
  Keeps-gets f = record { at = λ s s' b e. done-related R s s s' (f s) b e (o.same s) }

  pub Keeps-reads : {A : Type 0} (f : S → Outcome A) → Keeps R (reads f)
  Keeps-reads f = record { at = λ s s' b e. reads_related R (f s) s s' b (o.same s) e }

  pub Keeps-bind :
      {A B : Type 0} (m : Cmd S A) (k : A → Cmd S B)
      → Keeps R m
      → ((a : A) → Keeps R (k a))
      → Keeps R (m >>= k)
  Keeps-bind m k h rest = record {
    at = λ s s' b e. bind_related R o (m s) k s s' b (h.at s) rest e;
  }

pub ruleset keeps_rules = (Keeps-pure, Keeps-gets, Keeps-modify, Keeps-reads, Keeps-bind, Keeps-if)
