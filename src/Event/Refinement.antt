-- ===== src/Event/Refinement.antt =====
-- The table of subscriptions as an implementation of one list: the subscriptions in the order in which
-- they were added.
use mathlib.Core.List.{Memᴰ}
use mathlib.Core.List.Memᴰ
use c_cometd_client.Prelude.{
  ℕ, suc, ◌<◌, ◌≡◌, ◌⊎◌, refl, ap, sym, ◌∙◌, inl, inr, String, false, Bool-cases, some, List, [],
  ◌∷◌, ◌++◌, str_eq, eq_iff, if◌then◌else◌, length, arith,
}
use c_cometd_client.State.Types.{Callback, Subscription, Listeners}
use c_cometd_client.Event.Table.{lookup, list_remove, lookup-insert}
use c_cometd_client.Event.WellFormed.{Memᴰ-list_remove}
use c_cometd_client.Event.{subscription, fits, listener_add, listener_remove, listener_count}

-- The subscriptions of a channel, in their order.
abbrev pub on_channel : String → List Subscription → List Subscription
on_channel k [] = []
on_channel k (s ∷ l) = let rest = on_channel k l in if str_eq s.channel k then s ∷ rest else rest

-- The tables that calls of the two operations reach, each with the address that is given next and the
-- subscriptions that were added and not removed. Only one of these may be removed.
pub data Reached : ℕ → Listeners → List Subscription → Type 0 where
  empty : Reached 0 [] []
  added :
      {n : ℕ} {t : Listeners} {l : List Subscription} (channel : String) (cb : Callback)
      → Reached n t l
      → Reached
          (suc n)
          (listener_add t n channel cb).0
          (if fits channel then l ++ subscription n channel cb ∷ [] else l)
  removed :
      {n : ℕ} {t : Listeners} {l : List Subscription} (s : Subscription)
      → Memᴰ s l
      → Reached n t l
      → Reached n (listener_remove t (some s)).0 (list_remove s.address l)

on_channel-append :
    (k : String) (l : List Subscription) (s : Subscription)
    → on_channel k (l ++ s ∷ [])
      ≡ (if str_eq s.channel k then on_channel k l ++ s ∷ [] else on_channel k l)
on_channel-append k [] s = refl
on_channel-append k (x ∷ l) s = ground (arith, on_channel-append k l s)

on_channel-list_remove :
    (k : String) (a : ℕ) (l : List Subscription)
    → ((x : Subscription) → Memᴰ x l → x.address ≡ a → x.channel ≡ k)
    → on_channel k (list_remove a l) ≡ list_remove a (on_channel k l)
unfolding list_remove
on_channel-list_remove k a [] h = refl
on_channel-list_remove k a (x ∷ l) h = ground (
  arith,
  eq_iff x.channel k,
  h x (Memᴰ.head refl),
  on_channel-list_remove k a l (λ y m. h y (Memᴰ.tail m)),
)

on_channel-other :
    (k j : String) (a : ℕ) (l : List Subscription)
    → str_eq j k ≡ false
    → ((x : Subscription) → Memᴰ x l → x.address ≡ a → x.channel ≡ j)
    → on_channel k (list_remove a l) ≡ on_channel k l
unfolding list_remove
on_channel-other k j a [] other h = refl
on_channel-other k j a (x ∷ l) other h = ground (
  arith,
  eq_iff x.channel k,
  eq_iff j k,
  h x (Memᴰ.head refl),
  on_channel-other k j a l other (λ y m. h y (Memᴰ.tail m)),
)

-- The addresses were given out, and one address stands for one channel.
record Consistent (n : ℕ) (l : List Subscription) : Type 0 where
  below : (s : Subscription) → Memᴰ s l → s.address < n
  agrees :
      (s x : Subscription) → Memᴰ s l → Memᴰ x l → x.address ≡ s.address → x.channel ≡ s.channel

new_subscription :
    (n : ℕ) (l : List Subscription) (channel : String) (cb : Callback) (s : Subscription)
    → Consistent n l
    → Memᴰ s (l ++ subscription n channel cb ∷ [])
    → (Memᴰ s l × (s.address < n)) ⊎ ((s.address ≡ n) × (s.channel ≡ channel))
new_subscription n l channel cb s h m = elim (Memᴰ.append_cases l m) [
  | inl old ↦ inl (old, h.below s old)
  | inr new ↦ let e = Memᴰ.eq_of_singleton new in inr (ap (λ x. x.address) e, ap (λ x. x.channel) e)
]

agree :
    (n : ℕ) (l : List Subscription) (channel : String) (s x : Subscription)
    → Consistent n l
    → (Memᴰ s l × (s.address < n)) ⊎ ((s.address ≡ n) × (s.channel ≡ channel))
    → (Memᴰ x l × (x.address < n)) ⊎ ((x.address ≡ n) × (x.channel ≡ channel))
    → x.address ≡ s.address
    → x.channel ≡ s.channel
agree n l channel s x h (inl (p, a)) (inl (q, b)) e = h.agrees s x p q e
agree n l channel s x h (inl (p, a)) (inr (q, b)) e = absurd (omega (arith, a, q, e))
agree n l channel s x h (inr (p, a)) (inl (q, b)) e = absurd (omega (arith, p, b, e))
agree n l channel s x h (inr (p, a)) (inr (q, b)) e = b ∙ sym a

lower :
    (n : ℕ) (l : List Subscription) (channel : String) (s : Subscription)
    → (Memᴰ s l × (s.address < n)) ⊎ ((s.address ≡ n) × (s.channel ≡ channel))
    → s.address < suc n
lower n l channel s (inl (p, a)) = omega (arith, a)
lower n l channel s (inr (p, a)) = omega (arith, p)

added-Consistent :
    (n : ℕ) (l : List Subscription) (channel : String) (cb : Callback)
    → Consistent n l
    → Consistent (suc n) (l ++ subscription n channel cb ∷ [])
added-Consistent n l channel cb h = record {
  below = λ s m. lower n l channel s (new_subscription n l channel cb s h m);
  agrees = λ s x p q.
      agree n l channel s x h (new_subscription n l channel cb s h p)
        (new_subscription n l channel cb x h q);
}

Consistent-suc : (n : ℕ) (l : List Subscription) → Consistent n l → Consistent (suc n) l
Consistent-suc n l h = record { below = λ s m. omega (arith, h.below s m); agrees = h.agrees }

Reached-Consistent :
    {n : ℕ} {t : Listeners} {l : List Subscription} → Reached n t l → Consistent n l
Reached-Consistent empty = record {
  below = λ s m. absurd (Memᴰ.not-nil m);
  agrees = λ s x m. absurd (Memᴰ.not-nil m);
}
Reached-Consistent (added {n = n} {l = l} channel cb r) =
    let h = Reached-Consistent r in
    elim (Bool-cases (fits channel)) [
      | inl short ↦ rw short (added-Consistent n l channel cb h)
      | inr long ↦ rw long (Consistent-suc n l h)
    ]
Reached-Consistent (removed {n = n} {l = l} s m r) =
    let h = Reached-Consistent r in
    record {
      below = λ x p. h.below x (Memᴰ-list_remove s.address l p);
      agrees =
          λ x y p q. h.agrees x y (Memᴰ-list_remove s.address l p) (Memᴰ-list_remove s.address l q);
    }

Reached-lookup :
    (n : ℕ) (t : Listeners) (l : List Subscription)
    → Reached n t l
    → (k : String) → lookup k t ≡ on_channel k l
unfolding listener_add listener_remove lookup
Reached-lookup n t l empty k = refl
Reached-lookup n t l (added {n = m} {t = u} {l = j} channel cb r) k =
    let ih = Reached-lookup m u j r in
    elim (Bool-cases (fits channel)) [
      | inr long ↦ rw long (ih k)
      | inl short ↦
          rw (short, lookup-insert channel k, ih k, ih channel, on_channel-append k j)
            (ground (arith, eq_iff channel k))
    ]
Reached-lookup n t l (removed {t = u} {l = j} s m r) k =
    let ih = Reached-lookup n u j r in
    let h = Reached-Consistent r in
    elim (Bool-cases (str_eq s.channel k)) [
      | inl same ↦
          let e = (eq_iff s.channel k).0 same in
          lookup-insert s.channel k _ u
          ∙ rw same (
              ap (list_remove s.address) (ih s.channel ∙ ap (λ c. on_channel c j) e)
              ∙ sym (on_channel-list_remove k s.address j (λ x p q. h.agrees s x m p q ∙ e)))
      | inr other ↦
          lookup-insert s.channel k _ u
          ∙ rw other (
              ih k
              ∙ sym (on_channel-other k s.channel s.address j other (λ x p q. h.agrees s x m p q)))
    ]

-- Whatever subscriptions are added, and removed while they are in the table, in any order: the table
-- gives each channel the subscriptions that were added for it and not removed, in the order in which
-- they were added, and the count of a channel is their number.
pub Reached-refines :
    (n : ℕ) (t : Listeners) (l : List Subscription)
    → Reached n t l
    → (k : String) → (lookup k t ≡ on_channel k l) × (listener_count t k ≡ length (on_channel k l))
unfolding listener_count
Reached-refines n t l r k = (Reached-lookup n t l r k, ap length (Reached-lookup n t l r k))
