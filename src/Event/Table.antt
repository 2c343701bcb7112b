-- ===== src/Event/Table.antt =====
-- The GHashTable and the GList of event.c: g_hash_table_lookup (NULL is the empty list),
-- g_hash_table_insert, and g_list_remove by the address of a subscription.
use c_cometd_client.Prelude.{
  ℕ, ◌≡◌, refl, arith, String, List, [], ◌∷◌, ◌==◌, str_eq, eq_iff, if◌then◌else◌,
}
use c_cometd_client.State.Types.{Subscription, Listeners}

unfoldable pub lookup : String → Listeners → List Subscription
lookup k [] = []
lookup k ((j, l) ∷ t) = if str_eq j k then l else lookup k t

unfoldable pub insert : String → List Subscription → Listeners → Listeners
insert k l [] = (k, l) ∷ []
insert k l ((j, m) ∷ t) = if str_eq j k then (j, l) ∷ t else (j, m) ∷ insert k l t

-- Only the first occurrence goes.
unfoldable pub list_remove : ℕ → List Subscription → List Subscription
list_remove a [] = []
list_remove a (s ∷ l) = if s.address == a then l else s ∷ list_remove a l

pub lookup-insert :
    (k j : String) (l : List Subscription) (t : Listeners)
    → lookup j (insert k l t) ≡ (if str_eq k j then l else lookup j t)
unfolding lookup insert
lookup-insert k j l [] = refl
lookup-insert k j l ((i, m) ∷ t) =
    ground (arith, eq_iff k j, eq_iff i k, eq_iff i j, lookup-insert k j l t)
