-- ===== src/Prelude/Results.antt =====
-- How a call ends: with a value, in a crash (a failed `g_assert`, a null pointer read by `strcmp` or
-- `strdup`), or starved of the fuel that the model gives it.
use mathlib.Core.Path.{◌≡◌, refl, ap}
use mathlib.Core.Logic.{◌⊎◌, inl, inr}
use mathlib.Core.Option.{Option, none, some}

pub data Outcome (A : Type 0) : Type 0 where
  done : A → Outcome A
  crash : Outcome A
  starved : Outcome A

-- A command over a state.
abbrev pub Cmd : Type 0 → Type 0 → Type 0
Cmd S A = S → Outcome (A × S)

module _ {S : Type 0} where
  abbrev pub pure : {A : Type 0} → A → Cmd S A
  pure a s = done (a, s)

  abbrev pub and_then : {A B : Type 0} → Outcome (A × S) → (A → Cmd S B) → Outcome (B × S)
  and_then (done (a, s)) k = k a s
  and_then crash k = crash
  and_then starved k = starved

  infixl 5 ◌>>=◌ ◌>>◌
  abbrev pub ◌>>=◌ : {A B : Type 0} → Cmd S A → (A → Cmd S B) → Cmd S B
  ◌>>=◌ m k s = and_then (m s) k

  abbrev pub ◌>>◌ : {B : Type 0} → Cmd S (Unit {0}) → Cmd S B → Cmd S B
  m >> n = m >>= λ _. n

  -- A step that only reads the state, and may crash.
  abbrev pub reads : {A : Type 0} → (S → Outcome A) → Cmd S A
  reads f s = elim (f s) [ done a ↦ done (a, s) | crash ↦ crash | starved ↦ starved ]

  abbrev pub modify : (S → S) → Cmd S (Unit {0})
  modify f s = done (tt, f s)

  abbrev pub gets : {A : Type 0} → (S → A) → Cmd S A
  gets f s = done (f s, s)

  -- A command that starts with a step whose result is known.
  pub and_then-reads :
      {A B : Type 0} (f : S → Outcome A) (s : S) (a : A) (k : A → Cmd S B)
      → f s ≡ done a
      → and_then (reads f s) k ≡ k a s
  and_then-reads f s a k e =
      ap (λ o. and_then (elim o [ done a ↦ done (a, s) | crash ↦ crash | starved ↦ starved ]) k) e

  pub reads_crash : {A : Type 0} (f : S → Outcome A) (s : S) → f s ≡ crash → reads f s ≡ crash
  reads_crash f s e =
      ap (λ o. elim o [ done a ↦ done (a, s) | crash ↦ crash | starved ↦ starved ]) e

  -- A command that starts with one whose outcome is known.
  pub and_then_step :
      {A B : Type 0} {o : Outcome (A × S)} {a : A} {s : S} (k : A → Cmd S B)
      → o ≡ done (a, s)
      → and_then o k ≡ k a s
  and_then_step k e = ap (λ o. and_then o k) e

-- `g_assert(p != NULL)`, or a read through p.
abbrev pub non_null : {A : Type 0} → Option A → Outcome A
non_null none = crash
non_null (some a) = done a

module _ {A : Type 0} where
  abbrev value_or : A → Outcome A → A
  value_or a (done b) = b
  value_or a _ = a

  pub done-injective : (a b : A) → ◌≡◌ {A = Outcome A} (done a) (done b) → a ≡ b
  done-injective a b e = ap (value_or a) e

  pub Outcome-cases : (o : Outcome A) → ((a : A) × (o ≡ done a)) ⊎ ((o ≡ crash) ⊎ (o ≡ starved))
  Outcome-cases (done a) = inl (a, refl)
  Outcome-cases crash = inr (inl refl)
  Outcome-cases starved = inr (inr refl)
