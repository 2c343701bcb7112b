-- ===== src/Event/WellFormed.antt =====
-- The invariant of the table of subscriptions, and that each operation keeps it.
use mathlib.Core.List.{Memᴰ}
use mathlib.Core.List.Memᴰ
use c_cometd_client.Prelude.{
  ℕ, suc, ◌<◌, ◌≡◌, refl, ap, ◌∙◌, subst, ◌≢◌, inl, inr, String, Bool-cases, Option, none, some,
  List, [], ◌∷◌, ◌++◌, str_eq, eq_iff, eq_refl, eq→==, ne→==, ◌==◌, if◌then◌else◌, arith,
}
use c_cometd_client.State.Types.{Callback, Subscription, Listeners}
use c_cometd_client.Event.Table.{lookup, insert, list_remove, lookup-insert}
use c_cometd_client.Event.{subscription, fits, listener_add, listener_remove}

-- A subscription stands in the list of its own channel, and its address was given out.
abbrev pub IsWellFormed : ℕ → Listeners → Type 0
IsWellFormed n t =
    (k : String) (s : Subscription) → Memᴰ s (lookup k t) → (s.channel ≡ k) × (s.address < n)

pub Memᴰ-list_remove :
    {s : Subscription} (a : ℕ) (l : List Subscription) → Memᴰ s (list_remove a l) → Memᴰ s l
unfolding list_remove
Memᴰ-list_remove a [] m = m
Memᴰ-list_remove {s} a (x ∷ l) m = elim (Bool-cases (x.address == a)) [
  | inl hit ↦ Memᴰ.tail (rw hit at m)
  | inr miss ↦
      elim (Memᴰ.cases_cons (subst (λ b. Memᴰ s (if b then l else x ∷ list_remove a l)) miss m)) [
        | inl e ↦ Memᴰ.head e
        | inr later ↦ Memᴰ.tail (Memᴰ-list_remove a l later)
      ]
]

insert-IsWellFormed :
    (n : ℕ) (t : Listeners) (k : String) (l : List Subscription)
    → IsWellFormed n t
    → ((s : Subscription) → Memᴰ s l → (s.channel ≡ k) × (s.address < n))
    → IsWellFormed n (insert k l t)
insert-IsWellFormed n t k l h hl j s m = elim (Bool-cases (str_eq k j)) [
  | inl same ↦
      let (e, b) = hl s (subst (λ x. Memᴰ s x) (lookup-insert k j l t ∙ rw same) m) in
      (e ∙ (eq_iff k j).0 same, b)
  | inr other ↦ h j s (subst (λ x. Memᴰ s x) (lookup-insert k j l t ∙ rw other) m)
]

-- Removing a subscription keeps the invariant.
pub listener_remove-IsWellFormed :
    (n : ℕ) (t : Listeners) (s : Option Subscription)
    → IsWellFormed n t
    → IsWellFormed n (listener_remove t s).0
unfolding listener_remove
listener_remove-IsWellFormed n t none h = h
listener_remove-IsWellFormed n t (some s) h =
    insert-IsWellFormed n t s.channel _ h
      (λ x m. h s.channel x (Memᴰ-list_remove s.address (lookup s.channel t) m))

lt→ne : (a b : ℕ) → a < b → a ≢ b
lt→ne a b h = omega arith

IsWellFormed-suc : (n : ℕ) (t : Listeners) → IsWellFormed n t → IsWellFormed (suc n) t
IsWellFormed-suc n t h k s m = let (e, b) = h k s m in (e, omega arith)

subscription_fields :
    (n : ℕ) (channel : String) (cb : Callback) (s : Subscription)
    → s ≡ subscription n channel cb
    → (s.channel ≡ channel) × (s.address < suc n)
subscription_fields n channel cb s e = (ap (λ x. x.channel) e, omega (arith, ap (λ x. x.address) e))

-- Adding one at the next address keeps the invariant.
pub listener_add-IsWellFormed :
    (n : ℕ) (t : Listeners) (channel : String) (cb : Callback)
    → IsWellFormed n t
    → IsWellFormed (suc n) (listener_add t n channel cb).0
unfolding listener_add
listener_add-IsWellFormed n t channel cb h = elim (Bool-cases (fits channel)) [
  | inr long ↦ rw long (IsWellFormed-suc n t h)
  | inl short ↦ rw short (
      insert-IsWellFormed (suc n) t channel _ (IsWellFormed-suc n t h) (λ s m.
        elim (Memᴰ.append_cases (lookup channel t) m) [
          | inl old ↦ IsWellFormed-suc n t h channel s old
          | inr new ↦ subscription_fields n channel cb s (Memᴰ.eq_of_singleton new)
        ]))
]

list_remove-append :
    (n : ℕ) (l : List Subscription) (s : Subscription)
    → ((x : Subscription) → Memᴰ x l → x.address < n)
    → s.address ≡ n
    → list_remove n (l ++ s ∷ []) ≡ l
unfolding list_remove
list_remove-append n [] s h e = rw (eq→== s.address n e)
list_remove-append n (x ∷ l) s h e =
    rw (ne→== x.address n (lt→ne _ _ (h x (Memᴰ.head refl))))
      (ap (◌∷◌ x) (list_remove-append n l s (λ y m. h y (Memᴰ.tail m)) e))

-- Where a subscription was added to a table that meets the invariant, removing it gives each channel
-- the list that it had before; where the channel is too long or empty, nothing was added.
pub listener_remove-listener_add :
    (n : ℕ) (t : Listeners) (channel : String) (cb : Callback)
    → IsWellFormed n t
    → (k : String)
    → lookup k (listener_remove (listener_add t n channel cb).0 (listener_add t n channel cb).1).0
      ≡ lookup k t
unfolding listener_remove listener_add
listener_remove-listener_add n t channel cb h k = elim (Bool-cases (fits channel)) [
  | inr long ↦ rw long
  | inl short ↦
      rw
        (
          short,
          lookup-insert channel k,
          lookup-insert channel channel,
          lookup-insert channel k,
          eq_refl channel,
          list_remove-append n (lookup channel t) (subscription n channel cb)
              (λ x m. (h channel x m).1) refl,
        )
        (ground (arith, eq_iff channel k))
]
