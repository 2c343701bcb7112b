-- ===== src/Examples/Overflow.antt =====
-- The array that examples/yammer.c writes the channel of its feed into.
use Prim.Native.String.{String, len}
use Prim.Native.String
use Prim.Native.Nat.{ℕ, ◌+◌}
use text.Mathlib.TextPositions.{len-append}
use c_cometd_client.Prelude.{◌≤◌, ◌≡◌, refl, arith, Bool-cases, inl, inr, false, some, ltb, crash}
use c_cometd_client.State.{Env}
use c_cometd_client.Client.{W}
use c_cometd_client.Ext.{ext_yammer_new}
use c_cometd_client.Session.{configure}
use c_cometd_client.Examples.{feed_channel, set_up_yammer, yammer}

module _ (env : Env) (fuel : ℕ) where
  secondary_len : (feed : String) → len (feed_channel env fuel feed "/secondary") ≡ 17 + len feed
  secondary_len feed =
      omega
        (arith, len-append "/feeds/" (String.◌++◌ feed "/secondary"), len-append feed "/secondary")

  too_long :
      (feed : String)
      → 495 ≤ len feed
      → ltb (len (feed_channel env fuel feed "/secondary")) 512 ≡ false
  too_long feed h = ground (arith, secondary_len feed)

  -- A feed whose name has 495 bytes or more: the program of examples/yammer.c writes behind its array, before
  -- it makes a request.
  pub yammer-crash :
      (rounds : ℕ) (token feed url : String) (w : W env)
      → 495 ≤ len feed
      → yammer env fuel rounds (some token) (some feed) (some url) w ≡ crash
  unfolding yammer configure set_up_yammer ext_yammer_new
  yammer-crash rounds token feed url w h =
      elim (Bool-cases (ltb (len (feed_channel env fuel feed "/primary")) 512)) [
        | inr long ↦ rw long refl
        | inl short ↦ rw (short, too_long feed h) refl
      ]
