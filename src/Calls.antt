-- ===== src/Calls.antt =====
-- src/cometd.c: what the application calls, the body of the receiving thread among it, and sequences of
-- such calls on the handle that `cometd_new` makes. Each call runs to its end before the next.
pub mod Sound
pub mod Ids
pub mod Posting
pub mod Processing
pub mod Handshaking
pub mod Listening
pub mod Calling
pub mod Invariant
pub mod Numbering
use c_cometd_client.Prelude.{
  ℕ, String, Bool, Option, none, List, [], ◌∷◌, Cmd, pure, modify, ◌>>=◌, ◌>>◌,
}
use c_cometd_client.State.Types.{Callback, Subscription, Ext, Opt}
use c_cometd_client.State.{Cometd, World, Env}
use c_cometd_client.Ext.{ext_add}
use c_cometd_client.Client.{W, handshake}
use c_cometd_client.Session.{
  cometd_new, configure, add_listener, remove_listener, publish, subscribe, unsubscribe, connect,
}
use c_cometd_client.Receiving.{gthread_run, listen, disconnect}

-- A call of a function of include/cometd.h, or the run of the receiving thread.
pub data Call (Node : Type 0) : Type 0 where
  call_configure : Opt → Call Node
  call_add_listener : String → Callback → Call Node
  call_remove_listener : Option Subscription → Call Node
  call_ext_add : Ext → Call Node
  call_handshake call_connect : Call Node
  call_publish : String → Node → Call Node
  call_subscribe : String → Callback → Call Node
  call_unsubscribe : Option Subscription → Call Node
  call_listen call_gthread_run : ℕ → Call Node
  -- with the rounds that the receiving thread has left
  call_disconnect : ℕ → Bool → Call Node

-- The world before the first call: the two blocks of the internal subscriptions are given out.
abbrev pub new_world : {Node : Type 0} → World Node
new_world = record {
  h = cometd_new;
  posts = [];
  sleeps = [];
  printed = [];
  allocated = 2;
  token = none;
}

module _ (env : Env) (fuel : ℕ) where
  open env use {json}
  open json use {Node}

  abbrev pub discard : {A : Type 0} → Cmd (W env) A → Cmd (W env) (Unit {0})
  discard m = do _ ← m; pure tt

  abbrev pub add_ext : Ext → W env → W env
  add_ext ext w = record w { h = record w.h { exts = ext_add w.h.exts ext } }

  unfoldable pub run_call : Call Node → Cmd (W env) (Unit {0})
  run_call (call_configure opt) = configure env opt
  run_call (call_add_listener channel cb) = discard (add_listener env channel cb)
  run_call (call_remove_listener s) = discard (remove_listener env s)
  run_call (call_ext_add ext) = modify (add_ext ext)
  run_call call_handshake = discard (handshake env fuel)
  run_call call_connect = discard (connect env fuel)
  run_call (call_publish channel msg) = discard (publish env fuel channel msg)
  run_call (call_subscribe channel cb) = discard (subscribe env fuel channel cb)
  run_call (call_unsubscribe s) = discard (unsubscribe env fuel s)
  run_call (call_listen rounds) = listen env fuel rounds
  run_call (call_gthread_run rounds) = gthread_run env fuel rounds
  run_call (call_disconnect rounds wait_for_server) =
      discard (disconnect env (gthread_run env fuel rounds) wait_for_server)

  unfoldable pub run_calls : List (Call Node) → Cmd (W env) (Unit {0})
  run_calls [] = pure tt
  run_calls (c ∷ calls) = do run_call c; run_calls calls
