-- ===== src/Backoff.antt =====
-- src/cometd.c, lines 365 to 403: how long to wait before the next attempt. -1 means to give up. The
-- products are those of `long` within its range: beyond it the code's behaviour is undefined.
pub mod Bounds
use c_cometd_client.Prelude.{
  ℕ, ◌-◌, Bool, true, false, not, ◌&&◌, ◌||◌, Option, none, some, ltb, ℤ, pos, negsuc, scale, ltz,
  is_zero, if◌then◌else◌,
}
use c_cometd_client.Conn.Types.{Advice}
use c_cometd_client.Conn.{advice_is_handshake, advice_is_none, advice_is_retry}
use c_cometd_client.State.Types.{Config}

abbrev pub minus_one : ℤ
minus_one = negsuc 0

unfoldable pub compute_backoff : Config → ℕ → ℤ
compute_backoff config attempt =
    if is_zero config.backoff_increment
    then minus_one
    else let backoff = scale attempt config.backoff_increment in
      if not (is_zero config.max_backoff) && ltz backoff config.max_backoff
      then backoff
      else minus_one

unfoldable pub should_backoff : Advice → ℕ → Bool
unfolding advice_is_none
should_backoff advice attempt =
    not (advice_is_none advice) && (is_zero advice.interval && ltb 1 attempt)

unfoldable pub get_backoff : Config → Option Advice → ℕ → ℤ
unfolding compute_backoff should_backoff advice_is_none advice_is_handshake advice_is_retry
get_backoff config none attempt = compute_backoff config attempt
get_backoff config (some advice) attempt =
    if should_backoff advice attempt
    then compute_backoff config (attempt - 1)
    else if advice_is_handshake advice || advice_is_retry advice
    then advice.interval
    else if advice_is_none advice
    then minus_one
    else config.backoff_increment
