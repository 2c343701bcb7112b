-- ===== src/Backoff/Bounds.antt =====
-- The backoff as a table, and that it ends.
use c_cometd_client.Prelude.{
  ℕ, suc, ◌-◌, ◌*◌, ◌≡◌, ◌⊎◌, inl, inr, ◌<◌, Bool-cases, refl, sym, subst, true, Option, none, some,
  ltb, leb, ℤ, pos, negsuc, is_zero, if◌then◌else◌, arith,
}
use c_cometd_client.Conn.Types.{
  Reconnect, reconnect_none, reconnect_retry, reconnect_handshake, Advice,
}
use c_cometd_client.State.Types.{Config}
use c_cometd_client.Backoff.{minus_one, compute_backoff, get_backoff}

-- The backoff with no advice, advice "none", and advice "retry" or "handshake".
abbrev pub backoff_table : Config → Option Advice → ℕ → ℤ
backoff_table config none attempt = compute_backoff config attempt
backoff_table config (some advice) attempt = elim advice.reconnect [
  | reconnect_none ↦ minus_one
  | _ ↦
      if is_zero advice.interval
      then (if leb attempt 1 then pos 0 else compute_backoff config (attempt - 1))
      else advice.interval
]

zero_of_is_zero : (z : ℤ) → is_zero z ≡ true → z ≡ pos 0
zero_of_is_zero (pos n) h = ground arith
zero_of_is_zero (negsuc n) h = cc

-- `get_backoff` is the table: without advice the attempt's multiple of the increment; with "none" to
-- give up; with "retry" or "handshake" the server's interval, and where that is 0, no wait before the
-- first retry and the multiple for one attempt less from then on.
pub get_backoff-table :
    (config : Config) (advice : Option Advice) (attempt : ℕ)
    → get_backoff config advice attempt ≡ backoff_table config advice attempt
unfolding get_backoff
get_backoff-table config none attempt = refl
get_backoff-table config (some advice) attempt = ground (arith, zero_of_is_zero advice.interval)

-- With a positive increment and limit, `compute_backoff` is the multiple below the limit, and -1 from
-- there on.
pub compute_backoff-eq :
    (config : Config) (i m attempt : ℕ)
    → config.backoff_increment ≡ pos (suc i)
    → config.max_backoff ≡ pos (suc m)
    → compute_backoff config attempt
      ≡ (if ltb (attempt * suc i) (suc m) then pos (attempt * suc i) else minus_one)
unfolding compute_backoff
compute_backoff-eq config i m attempt e f = rw (e, f) (ground arith)

abbrev pub Bounded : ℕ → ℤ → Type 0
Bounded m z = (z ≡ minus_one) ⊎ ((b : ℕ) × (z ≡ pos b) × (b < suc m))

product-Bounded : (m b : ℕ) → Bounded m (if ltb b (suc m) then pos b else minus_one)
product-Bounded m b = elim (Bool-cases (ltb b (suc m))) [
  | inl below ↦ rw below (inr (b, refl, ground (arith, below)))
  | inr beyond ↦ rw beyond (inl refl)
]

module _ (config : Config) (i m : ℕ) (increment : config.backoff_increment ≡ pos (suc i))
    (limit : config.max_backoff ≡ pos (suc m)) where
  compute_backoff-Bounded : (attempt : ℕ) → Bounded m (compute_backoff config attempt)
  compute_backoff-Bounded attempt =
      rw (compute_backoff-eq config i m attempt increment limit)
        (product-Bounded m (attempt * suc i))

  retry-Bounded :
      (z : ℤ) (attempt : ℕ)
      → z ≡ pos 0
      → Bounded m (
          if is_zero z
          then (if leb attempt 1 then pos 0 else compute_backoff config (attempt - 1))
          else z)
  retry-Bounded z attempt e = elim (Bool-cases (leb attempt 1)) [
    | inl first ↦ rw (e, first) (inr (0, refl, omega arith))
    | inr later ↦ rw (e, later) (compute_backoff-Bounded (attempt - 1))
  ]

  table-Bounded :
      (advice : Option Advice) (attempt : ℕ)
      → ((a : Advice) → advice ≡ some a → a.interval ≡ pos 0)
      → Bounded m (backoff_table config advice attempt)
  table-Bounded none attempt h = compute_backoff-Bounded attempt
  table-Bounded (some advice) attempt h = by_reconnect advice.reconnect
    where
      by_reconnect :
          (r : Reconnect)
          → Bounded m (elim r [
            | reconnect_none ↦ minus_one
            | _ ↦
                if is_zero advice.interval
                then (if leb attempt 1 then pos 0 else compute_backoff config (attempt - 1))
                else advice.interval
          ])
      by_reconnect reconnect_none = inl refl
      by_reconnect reconnect_retry = retry-Bounded advice.interval attempt (h advice refl)
      by_reconnect reconnect_handshake = retry-Bounded advice.interval attempt (h advice refl)

-- Where the server leaves the interval to the client (it gave no advice, or advice with the interval 0), and
-- the increment and the limit of the configuration are positive: the next backoff is to give up, or it
-- is a number of milliseconds that is not negative and below the limit.
pub get_backoff-bounded :
    (config : Config) (advice : Option Advice) (i m attempt : ℕ)
    → config.backoff_increment ≡ pos (suc i)
    → config.max_backoff ≡ pos (suc m)
    → ((a : Advice) → advice ≡ some a → a.interval ≡ pos 0)
    → (get_backoff config advice attempt ≡ minus_one)
      ⊎ ((b : ℕ) × (get_backoff config advice attempt ≡ pos b) × (b < suc m))
get_backoff-bounded config advice i m attempt e f h =
    subst (Bounded m) (sym (get_backoff-table config advice attempt))
      (table-Bounded config i m e f advice attempt h)
