-- ===== src/Calls/Handshaking.antt =====
-- The wait and the handshake of src/cometd.c, and the loop of src/loops/gthread.c.
use c_cometd_client.Prelude.{
  ℕ, zero, suc, ℤ, pos, ◌+◌, ◌%◌, ◌^◌, Cmd, pure, Keeps, keeps_rules, Keeps-bind, Keeps-if,
  Keeps-gets, Keeps-pure, is_minus_one,
}
use c_cometd_client.Conn.Types.{Code, unknown}
use c_cometd_client.State.{Env}
use c_cometd_client.Backoff.{get_backoff}
use c_cometd_client.Client.{W, handshake_round, handshake_loop, handshake, should_handshake}
use c_cometd_client.Calls.Sound.{Sound, Sound-IsPreorder}
use c_cometd_client.Receiving.Keeping.{loop_wait-Keeps}
use c_cometd_client.Calls.Posting.{received-Sound, ForeignSound}
use c_cometd_client.Calls.Processing.{impl_handshake-Keeps}

module _ (env : Env) (outside : ForeignSound env) where
  open env use {json}
  open json use {Node}

  handshake_round-Keeps :
      (inner : Cmd (W env) Code) (rest : ℕ → ℤ → Code → Cmd (W env) Code) (attempt : ℕ)
      (backoff : ℤ)
      → Keeps Sound inner
      → ((a : ℕ) (b : ℤ) (c : Code) → Keeps Sound (rest a b c))
      → Keeps Sound (handshake_round env inner rest attempt backoff)
  unfolding handshake_round
  handshake_round-Keeps inner rest attempt backoff h k =
      Keeps-bind _ _
        (loop_wait-Keeps env Sound Sound-IsPreorder (received-Sound env outside) backoff)
        (λ u. Keeps-bind _ _ (impl_handshake-Keeps env outside inner h) (λ code.
          Keeps-bind _ _ (Keeps-gets (λ w. get_backoff w.h.config w.h.conn.advice attempt))
            (λ backoff'.
              Keeps-if (is_minus_one backoff') (pure code)
                (rest ((attempt + 1) % 2 ^ 32) backoff' code) (Keeps-pure code) (k _ _ _))))

  handshake_loop-Keeps :
      (inner : Cmd (W env) Code) (fuel attempt : ℕ) (backoff : ℤ) (code : Code)
      → Keeps Sound inner
      → Keeps Sound (handshake_loop env inner fuel attempt backoff code)
  unfolding handshake_loop
  handshake_loop-Keeps inner zero attempt backoff code h = search keeps_rules
  handshake_loop-Keeps inner (suc fuel) attempt backoff code h =
      Keeps-bind _ _ (Keeps-gets (should_handshake env)) (λ again.
        Keeps-if again (handshake_round env inner (handshake_loop env inner fuel) attempt backoff)
          (pure code)
          (handshake_round-Keeps inner _ attempt backoff h
            (λ a b c. handshake_loop-Keeps inner fuel a b c h))
          (Keeps-pure code))

  pub handshake-Keeps : (fuel : ℕ) → Keeps Sound (handshake env fuel)
  unfolding handshake
  handshake-Keeps zero = search keeps_rules
  handshake-Keeps (suc fuel) =
      handshake_loop-Keeps _ (suc fuel) 1 (pos 0) unknown (handshake-Keeps fuel)
