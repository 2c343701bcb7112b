-- ===== src/Calls/Invariant.antt =====
-- What holds after any sequence of calls, on the handle that `cometd_new` makes and on any other.
use mathlib.Core.List.{Memᴰ}
use mathlib.Core.List.Memᴰ
use c_cometd_client.Prelude.{ℕ, ◌≡◌, ◌≢◌, refl, subst, none, List, [], ◌++◌, done, String}
use c_cometd_client.State.Types.{process_handshake, process_connect}
use c_cometd_client.State.{Env, Post}
use c_cometd_client.Msg.{channel_meta_handshake, channel_meta_connect}
use c_cometd_client.Event.Table.{lookup}
use c_cometd_client.Event.WellFormed.{IsWellFormed, listener_add-IsWellFormed}
use c_cometd_client.Session.{cometd_new}
use c_cometd_client.Calls.Sound.{IsState, is_uninitialized}
use c_cometd_client.Calls.Posting.{ForeignSound}
use c_cometd_client.Calls.Calling.{run_calls-Keeps}
use c_cometd_client.Calls.{Call, new_world, run_calls}
use c_cometd_client.Client.{W}

lookup-nil : (k : String) → lookup k [] ≡ []
unfolding lookup
lookup-nil k = refl

cometd_new-IsState : (Node : Type 0) → IsState (cometd_new {Node = Node}).conn.state
unfolding cometd_new
cometd_new-IsState Node = is_uninitialized

cometd_new-IsWellFormed : (Node : Type 0) → IsWellFormed 2 (cometd_new {Node = Node}).subscriptions
unfolding cometd_new
cometd_new-IsWellFormed Node = listener_add-IsWellFormed 1 _ channel_meta_connect process_connect (
    listener_add-IsWellFormed 0 [] channel_meta_handshake process_handshake
      (λ k s m. absurd (Memᴰ.not-nil (subst (Memᴰ s) (lookup-nil k) m))))

module _ (env : Env) (outside : ForeignSound env) (fuel : ℕ)
    (calls : List (Call env.json.Node)) where
  -- Where the code outside the repository keeps what the client's calls keep, a sequence of calls on a
  -- new client that ends leaves the connection in one of the six states, and leaves each subscription
  -- of the table in the list of its own channel, at an address that was given out.
  pub run_calls-IsState :
      (w : W env)
      → run_calls env fuel calls new_world ≡ done (tt, w)
      → IsState w.h.conn.state × IsWellFormed w.allocated w.h.subscriptions
  run_calls-IsState w e =
      let sound = (run_calls-Keeps env outside fuel calls).at _ w tt e in
      (sound.conn.state (cometd_new-IsState _), sound.table (cometd_new-IsWellFormed _))

  -- Where the code outside the repository keeps what the client's calls keep, a transport and a client
  -- id that are set before a sequence of calls that ends are set after it, and every request that was
  -- posted is still on record, the newest first.
  pub run_calls-session :
      (w w' : W env)
      → w.h.conn.transport ≢ none
      → w.h.conn.client_id ≢ none
      → run_calls env fuel calls w ≡ done (tt, w')
      → (w'.h.conn.transport ≢ none)
        × (w'.h.conn.client_id ≢ none)
        × ((new : List Post) × (w'.posts ≡ new ++ w.posts))
  run_calls-session w w' t i e =
      let sound = (run_calls-Keeps env outside fuel calls).at w w' tt e in
      (sound.conn.transport t, sound.conn.client_id i, sound.posted)
