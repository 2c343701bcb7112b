-- ===== src/Memory/Parts.antt =====
-- What the objects of the handle own, and the blocks of the table of subscriptions.
use mathlib.Core.List.{Memᴰ}
use mathlib.Core.List.Memᴰ
use c_cometd_client.Prelude.{
  ℕ, ◌+◌, ◌≡◌, ap, sym, arith, ◌==◌, eq→==, String, str_eq, Bool-cases, inl, inr, some, List, [],
  ◌∷◌, ◌++◌,
}
use c_cometd_client.State.Types.{Subscription, Listeners}
use c_cometd_client.Event.Table.{lookup, insert, list_remove}
use c_cometd_client.Event.{listener_remove}
use c_cometd_client.Memory.{
  ConnBlocks, destroy_conn, LoopBlocks, destroy_loop, InboxBlocks, destroy_inbox, addresses,
  table_addresses, destroy_lists, destroy_listeners,
}
use c_cometd_client.Memory.Freeing.{
  count, count-append, Frees, Frees-none, Frees-free, Frees-then, Frees-count, option_list,
  Frees-free_option, Frees-free_full,
}

abbrev pub conn_blocks : ConnBlocks → List ℕ
conn_blocks c = option_list c.client_id ++ option_list c.advice ++ c.self ∷ []

abbrev pub loop_blocks : LoopBlocks → List ℕ
loop_blocks l = l.internal ∷ l.self ∷ []

abbrev pub inbox_blocks : InboxBlocks → List ℕ
inbox_blocks i = i.messages ++ i.queue ∷ i.c ∷ i.m ∷ i.self ∷ []

pub count-conn_blocks :
    (b : ℕ) (c : ConnBlocks)
    → count b (conn_blocks c)
      ≡ count b (option_list c.client_id) + count b (option_list c.advice) + count b (c.self ∷ [])
count-conn_blocks b c = omega (
  arith,
  count-append b (option_list c.client_id ++ option_list c.advice) (c.self ∷ []),
  count-append b (option_list c.client_id) (option_list c.advice),
)

pub destroy_conn-Frees : (c : ConnBlocks) → Frees (destroy_conn c) (conn_blocks c)
unfolding destroy_conn
destroy_conn-Frees c =
    Frees-count _ _ _
      (Frees-then _ _ _ _ (Frees-free_option c.client_id)
        (Frees-then _ _ _ _ (Frees-free_option c.advice) (Frees-free c.self)))
      (λ b. omega (
        arith,
        count-conn_blocks b c,
        count-append b (option_list c.client_id) (option_list c.advice ++ c.self ∷ []),
        count-append b (option_list c.advice) (c.self ∷ []),
      ))

pub destroy_loop-Frees : (l : LoopBlocks) → Frees (destroy_loop l) (loop_blocks l)
unfolding destroy_loop
destroy_loop-Frees l =
    Frees-then _ _ (l.internal ∷ []) (l.self ∷ []) (Frees-free l.internal) (Frees-free l.self)

pub destroy_inbox-Frees : (i : InboxBlocks) → Frees (destroy_inbox i) (inbox_blocks i)
unfolding destroy_inbox
destroy_inbox-Frees i = Frees-then _ _ i.messages _ (Frees-free_full i.messages) (
    Frees-then _ _ (i.queue ∷ []) _ (Frees-free i.queue) (
      Frees-then _ _ (i.c ∷ []) _ (Frees-free i.c)
        (Frees-then _ _ (i.m ∷ []) (i.self ∷ []) (Frees-free i.m) (Frees-free i.self))))

destroy_lists-Frees : (t : Listeners) → Frees (destroy_lists t) (table_addresses t)
unfolding destroy_lists
destroy_lists-Frees [] = Frees-none
destroy_lists-Frees ((k, l) ∷ t) =
    Frees-then _ _ (addresses l) (table_addresses t) (Frees-free_full (addresses l))
      (destroy_lists-Frees t)

pub destroy_listeners-Frees :
    (table : ℕ) (t : Listeners)
    → Frees (destroy_listeners table t) (table_addresses t ++ table ∷ [])
unfolding destroy_listeners
destroy_listeners-Frees table t =
    Frees-then _ _ (table_addresses t) (table ∷ []) (destroy_lists-Frees t) (Frees-free table)

count-insert :
    (b : ℕ) (k : String) (l : List Subscription) (t : Listeners)
    → count b (table_addresses (insert k l t)) + count b (addresses (lookup k t))
      ≡ count b (table_addresses t) + count b (addresses l)
unfolding insert lookup
count-insert b k l [] = omega (arith, count-append b (addresses l) [])
count-insert b k l ((j, m) ∷ t) = elim (Bool-cases (str_eq j k)) [
  | inl same ↦ rw same (
      omega (
        arith,
        count-append b (addresses l) (table_addresses t),
        count-append b (addresses m) (table_addresses t),
      ))
  | inr other ↦ rw other (
      omega (
        arith,
        count-insert b k l t,
        count-append b (addresses m) (table_addresses t),
        count-append b (addresses m) (table_addresses (insert k l t)),
      ))
]

count-list_remove :
    (b : ℕ) (s : Subscription) (l : List Subscription)
    → Memᴰ s l
    → count b (s.address ∷ addresses (list_remove s.address l)) ≡ count b (addresses l)
unfolding list_remove
count-list_remove b s [] m = absurd (Memᴰ.not-nil m)
count-list_remove b s (x ∷ l) m = elim (Bool-cases (x.address == s.address)) [
  | inl hit ↦ rw hit (ground (arith, hit))
  | inr miss ↦ elim (Memᴰ.cases_cons m) [
    | inl e ↦ absurd (ground (arith, miss, eq→== x.address s.address (ap (λ y. y.address) (sym e))))
    | inr later ↦ rw miss (omega (arith, count-list_remove b s l later))
  ]
]

-- A subscription that stands in the table of its channel is taken out once.
pub count-listener_remove :
    (b : ℕ) (s : Subscription) (t : Listeners)
    → Memᴰ s (lookup s.channel t)
    → count b (s.address ∷ table_addresses (listener_remove t (some s)).0)
      ≡ count b (table_addresses t)
unfolding listener_remove
count-listener_remove b s t m = omega (
  arith,
  count-insert b s.channel (list_remove s.address (lookup s.channel t)) t,
  count-list_remove b s (lookup s.channel t) m,
)
