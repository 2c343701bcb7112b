-- ===== src/Memory/Owning.antt =====
-- The blocks of the handle, which `cometd_destroy` frees.
use mathlib.Core.List.{Memᴰ}
use c_cometd_client.Prelude.{
  ℕ, ◌+◌, ◌≡◌, ◌≢◌, ◌∙◌, sym, subst, arith, String, eq_iff, Option, none, some, List, [], ◌∷◌, ◌++◌,
  Cmd, ◌>>=◌, ◌>>◌,
}
use c_cometd_client.State.Types.{Subscription, Listeners}
use c_cometd_client.Event.Table.{lookup, list_remove, lookup-insert}
use c_cometd_client.Event.{listener_remove}
use c_cometd_client.Memory.{
  Heap, free, destroy_transport, destroy_ext, destroy_error, free_full, destroy_conn, destroy_loop,
  destroy_inbox, table_addresses, destroy_listeners, free_subscription, remove_subscription, Handle,
  destroy_handle,
}
use c_cometd_client.Memory.Freeing.{
  count, count-append, Frees, Frees-none, Frees-free, Frees-then, Frees-count, Frees-free_full,
  Frees-remove_subscription,
}
use c_cometd_client.Memory.Parts.{
  conn_blocks, loop_blocks, inbox_blocks, destroy_conn-Frees, destroy_loop-Frees,
  destroy_inbox-Frees, destroy_listeners-Frees, count-listener_remove,
}

-- The blocks of a handle that `cometd_destroy` frees after the table, and all that are not in the table.
abbrev last_blocks : Handle → List ℕ
last_blocks h =
    conn_blocks h.conn
    ++ (loop_blocks h.loop ++ (inbox_blocks h.inbox ++ (h.last_error ∷ (h.exts ++ h.self ∷ []))))

abbrev blocks_with : Handle → Listeners → List ℕ
blocks_with h t =
    h.transports ++ (h.config ∷ ((table_addresses t ++ h.table ∷ []) ++ last_blocks h))

-- The blocks that a handle owns.
abbrev pub handle_blocks : Handle → List ℕ
handle_blocks h = blocks_with h h.subscriptions

abbrev destroy_rest : Handle → Listeners → Cmd Heap (Unit {0})
destroy_rest h t = do
  free_full destroy_transport h.transports
  free h.config
  destroy_listeners h.table t
  destroy_conn h.conn
  destroy_loop h.loop
  destroy_inbox h.inbox
  destroy_error h.last_error
  free_full destroy_ext h.exts
  free h.self

destroy_rest-Frees : (h : Handle) (t : Listeners) → Frees (destroy_rest h t) (blocks_with h t)
destroy_rest-Frees h t = Frees-then _ _ h.transports _ (Frees-free_full h.transports) (
    Frees-then _ _ (h.config ∷ []) _ (Frees-free h.config) (
      Frees-then _ _ (table_addresses t ++ h.table ∷ []) _ (destroy_listeners-Frees h.table t) (
        Frees-then _ _ (conn_blocks h.conn) _ (destroy_conn-Frees h.conn) (
          Frees-then _ _ (loop_blocks h.loop) _ (destroy_loop-Frees h.loop) (
            Frees-then _ _ (inbox_blocks h.inbox) _ (destroy_inbox-Frees h.inbox) (
              Frees-then _ _ (h.last_error ∷ []) _ (Frees-free h.last_error) (
                Frees-then _ _ h.exts (h.self ∷ []) (Frees-free_full h.exts)
                  (Frees-free h.self))))))))

abbrev subscription_block : Option Subscription → List ℕ
subscription_block none = []
subscription_block (some s) = s.address ∷ []

free_subscription-Frees :
    (s : Option Subscription) → Frees (free_subscription s) (subscription_block s)
free_subscription-Frees none = Frees-none
free_subscription-Frees (some s) = Frees-free s.address

abbrev table_left : Listeners → Option Subscription → Option Subscription → Listeners
table_left t o o' = (listener_remove (listener_remove t o).0 o').0

destroy_handle_removed :
    (h : Handle)
    → Frees (destroy_handle h) (
        subscription_block h.handshake
        ++ (subscription_block h.connect
            ++ blocks_with h (table_left h.subscriptions h.handshake h.connect)))
unfolding destroy_handle
destroy_handle_removed h =
    Frees-remove_subscription h.subscriptions h.handshake
      (λ t. remove_subscription t h.connect >>= destroy_rest h) _ _
      (free_subscription-Frees h.handshake)
      (Frees-remove_subscription (listener_remove h.subscriptions h.handshake).0 h.connect
        (destroy_rest h) _ _ (free_subscription-Frees h.connect)
        (destroy_rest-Frees h (table_left h.subscriptions h.handshake h.connect)))

count-blocks_with :
    (b : ℕ) (h : Handle) (t : Listeners)
    → count b (blocks_with h t)
      ≡ count b h.transports
        + count b (h.config ∷ h.table ∷ [])
        + count b (last_blocks h)
        + count b (table_addresses t)
count-blocks_with b h t = omega (
  arith,
  count-append b h.transports (h.config ∷ ((table_addresses t ++ h.table ∷ []) ++ last_blocks h)),
  count-append b (table_addresses t ++ h.table ∷ []) (last_blocks h),
  count-append b (table_addresses t) (h.table ∷ []),
)

-- The two internal subscriptions stand in the table, on two channels.
pub record IsOwner (h : Handle) : Type 0 where
  pub s : Subscription
  pub s' : Subscription
  pub on_handshake : h.handshake ≡ some s
  pub on_connect : h.connect ≡ some s'
  pub heard : Memᴰ s (lookup s.channel h.subscriptions)
  pub heard' : Memᴰ s' (lookup s'.channel h.subscriptions)
  pub apart : s.channel ≢ s'.channel

lookup-listener_remove :
    (k : String) (s : Subscription) (t : Listeners)
    → s.channel ≢ k
    → lookup k (listener_remove t (some s)).0 ≡ lookup k t
unfolding listener_remove
lookup-listener_remove k s t ne =
    lookup-insert s.channel k (list_remove s.address (lookup s.channel t)) t
    ∙ ground (arith, eq_iff s.channel k)

count-table_left :
    (b : ℕ) (t : Listeners) (s s' : Subscription)
    → Memᴰ s (lookup s.channel t)
    → Memᴰ s' (lookup s'.channel t)
    → s.channel ≢ s'.channel
    → count b (s.address ∷ s'.address ∷ table_addresses (table_left t (some s) (some s')))
      ≡ count b (table_addresses t)
count-table_left b t s s' m m' ne =
    let u = (listener_remove t (some s)).0 in
    let later = subst (Memᴰ s') (sym (lookup-listener_remove s'.channel s t ne)) m' in
    omega (arith, count-listener_remove b s t m, count-listener_remove b s' u later)

pub destroy_handle-Frees : (h : Handle) → IsOwner h → Frees (destroy_handle h) (handle_blocks h)
destroy_handle-Frees h o = Frees-count _ _ _ (destroy_handle_removed h) (λ b.
    rw (o.on_handshake, o.on_connect)
      (omega (
        arith,
        count-table_left b h.subscriptions o.s o.s' o.heard o.heard' o.apart,
        count-blocks_with b h h.subscriptions,
        count-blocks_with b h (table_left h.subscriptions (some o.s) (some o.s')),
      )))
