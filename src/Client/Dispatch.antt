-- ===== src/Client/Dispatch.antt =====
-- A message on its way through `cometd_process_msg` to the one subscription that it matches.
use mathlib.Core.List.{Memᴰ}
use c_cometd_client.Prelude.{
  refl, Bool, pure, ◌>>=◌, ◌≡◌, ◌∙◌, String, Bool-cases, true, inl, inr, Option, some, [], ◌∷◌,
  if◌then◌else◌, done, Cmd, and_then_step, and_then-reads,
}
use c_cometd_client.Libs.Strings.{GStrings}
use c_cometd_client.Conn.Types.{Code, success, unknown, is_success}
use c_cometd_client.State.Types.{Callback, Subscription, Listeners}
use c_cometd_client.State.{Env}
use c_cometd_client.Msg.{msg_channel}
use c_cometd_client.Event.{listener_get, is_subscribed, read_callback, fire_loop, listener_fire}
use c_cometd_client.Event.Firing.{listener_get-IsSubscribed}
use c_cometd_client.Client.{W, run_callback, process_msg}
use c_cometd_client.Ext.Firing.{ext_fire-nil}

-- What firing makes of a callback's code.
abbrev pub fired : Code → Code
fired code = if is_success code then success else unknown

module _ {S : Type 0} (call : Callback → Cmd S Code) where
  fire_loop-alone :
      (is_live : S → Subscription → Bool) (s : Subscription) (w w' : S) (code : Code)
      → is_live w s ≡ true
      → call s.callback w ≡ done (code, w')
      → fire_loop is_live call (s ∷ []) w ≡ done (fired code, w')
  unfolding fire_loop
  fire_loop-alone is_live s w w' code live run =
      and_then-reads (read_callback is_live call s) w s.callback (λ cb. call cb >>= ended)
        (rw live refl)
      ∙ and_then_step ended run
      ∙ elim (Bool-cases (is_success code)) [ inl ok ↦ rw ok refl | inr fails ↦ rw fails refl ]
    where
      ended : Code → Cmd S Code
      ended code = if is_success code then pure success else pure unknown

  listener_fire-alone :
      (g : GStrings) (table : S → Listeners) (channel : Option String) (c : String)
      (s : Subscription) (w w' : S) (code : Code)
      → channel ≡ some c
      → listener_get g (table w) c ≡ done (s ∷ [])
      → call s.callback w ≡ done (code, w')
      → listener_fire call g table channel w ≡ done (fired code, w')
  unfolding listener_fire
  listener_fire-alone g table channel c s w w' code named heard run =
      rw (named, listener_fire)
        (and_then-reads (λ (w : S). listener_get g (table w) c) w (s ∷ [])
            (fire_loop (λ w s. is_subscribed (table w) s) call) heard
          ∙ fire_loop-alone (λ w s. is_subscribed (table w) s) s w w' code
              (listener_get-IsSubscribed g (table w) c (s ∷ []) s heard (Memᴰ.head refl)) run)

module _ (env : Env) (handshake : Cmd (W env) Code) where
  -- A message that one subscription hears, while there is no extension, is processed by running that
  -- subscription's callback on the client as it is, and nothing else. The code is success where the
  -- callback's is, and unknown where it is not; the message stays as it was.
  pub process_msg-alone :
      (msg : env.json.Node) (c : String) (s : Subscription) (w w' : W env) (code : Code)
      → w.h.exts ≡ []
      → msg_channel env.json (some msg) ≡ some c
      → listener_get env.strings w.h.subscriptions c ≡ done (s ∷ [])
      → run_callback env handshake msg s.callback w ≡ done (code, w')
      → process_msg env handshake msg w ≡ done ((fired code, msg), w')
  unfolding process_msg
  process_msg-alone msg c s w w' code none_there named heard run =
      and_then_step _ (ext_fire-nil env w.h.exts true msg w none_there)
      ∙ and_then_step _ (
          listener_fire-alone (run_callback env handshake msg) env.strings (λ w. w.h.subscriptions)
            (msg_channel env.json (some msg)) c s w w' code named heard run)
