-- ===== src/Memory/Freeing.antt =====
-- Commands that free exactly the blocks of a list, each as often as it stands there.
use c_cometd_client.Prelude.{
  ℕ, ◌+◌, ◌≤◌, ◌≡◌, ◌∙◌, refl, arith, ◌==◌, true, eq→==, Option, none, some, List, [], ◌∷◌, ◌++◌,
  if◌then◌else◌, Outcome, done, crash, starved, Cmd, pure, and_then, and_then_step, ◌>>=◌, ◌>>◌,
}
use c_cometd_client.State.Types.{Subscription, Listeners}
use c_cometd_client.Event.{listener_remove}
use c_cometd_client.Memory.{
  Heap, mem, remove, free, free_option, free_full, free_subscription, remove_subscription,
}

abbrev pub count : ℕ → List ℕ → ℕ
count b [] = 0
count b (a ∷ l) = (if a == b then 1 else 0) + count b l

pub count-append : (b : ℕ) (x y : List ℕ) → count b (x ++ y) ≡ count b x + count b y
count-append b [] y = omega arith
count-append b (a ∷ x) y = omega (arith, count-append b x y)

pub mem_of_count : (a : ℕ) (l : List ℕ) → 1 ≤ count a l → mem a l ≡ true
mem_of_count a [] h = absurd (omega (arith, h))
mem_of_count a (b ∷ l) h = ground (arith, mem_of_count a l)

pub count-remove :
    (a b : ℕ) (l : List ℕ) → mem a l ≡ true → count b (remove a l) + count b (a ∷ []) ≡ count b l
count-remove a b [] h = absurd (ground arith)
count-remove a b (c ∷ l) h = ground (arith, count-remove a b l)

-- The command ends, from any heap where the blocks are live, and they are live no more.
pub record Frees (m : Cmd Heap (Unit {0})) (l : List ℕ) : Type 0 where
  pub at :
      (heap : Heap)
      → ((b : ℕ) → count b l ≤ count b heap.live)
      → (heap' : Heap) × (m heap ≡ done (tt, heap'))
        × ((b : ℕ) → count b heap'.live + count b l ≡ count b heap.live)

pub Frees-none : Frees (pure tt) []
Frees-none = record { at = λ heap h. (heap, refl, λ b. omega arith) }

pub one : (a : ℕ) → count a (a ∷ []) ≡ 1
one a = rw (eq→== a a refl) refl

pub Frees-free : (a : ℕ) → Frees (free a) (a ∷ [])
unfolding free
Frees-free a = record {
  at = λ heap h.
      let here = mem_of_count a heap.live (omega (arith, h a, one a)) in
      (
        record heap { live = remove a heap.live },
        rw here refl,
        λ b. count-remove a b heap.live here,
      );
}

pub Frees-then :
    (m n : Cmd Heap (Unit {0})) (x y : List ℕ) → Frees m x → Frees n y → Frees (m >> n) (x ++ y)
Frees-then m n x y f g = record {
  at = λ heap h.
      let (heap₁, run, less) = f.at heap (λ b. omega (arith, h b, count-append b x y)) in
      let (heap₂, run', less') = g.at heap₁ (λ b. omega (arith, h b, less b, count-append b x y)) in
      (
        heap₂,
        and_then_step (λ _. n) run ∙ run',
        λ b. omega (arith, less b, less' b, count-append b x y),
      );
}

-- The same blocks in another order.
pub Frees-count :
    (m : Cmd Heap (Unit {0})) (x y : List ℕ)
    → Frees m x
    → ((b : ℕ) → count b x ≡ count b y)
    → Frees m y
Frees-count m x y f e = record {
  at = λ heap h.
      let (heap', run, less) = f.at heap (λ b. omega (arith, h b, e b)) in
      (heap', run, λ b. omega (arith, less b, e b));
}

abbrev pub option_list : Option ℕ → List ℕ
option_list none = []
option_list (some a) = a ∷ []

pub Frees-free_option : (a : Option ℕ) → Frees (free_option a) (option_list a)
Frees-free_option none = Frees-none
Frees-free_option (some a) = Frees-free a

pub Frees-free_full : (l : List ℕ) → Frees (free_full free l) l
unfolding free_full
Frees-free_full [] = Frees-none
Frees-free_full (a ∷ l) =
    Frees-then (free a) (free_full free l) (a ∷ []) l (Frees-free a) (Frees-free_full l)

bind_pure :
    {A B : Type 0} (p : Outcome ((Unit {0}) × Heap)) (x : A) (k : A → Cmd Heap B)
    → and_then (and_then p (λ u. pure x)) k ≡ and_then p (λ u. k x)
bind_pure (done (u, heap)) x k = refl
bind_pure crash x k = refl
bind_pure starved x k = refl

-- A subscription that is removed and freed before the rest.
pub Frees-remove_subscription :
    (t : Listeners) (s : Option Subscription) (k : Listeners → Cmd Heap (Unit {0})) (x y : List ℕ)
    → Frees (free_subscription s) x
    → Frees (k (listener_remove t s).0) y
    → Frees (remove_subscription t s >>= k) (x ++ y)
unfolding remove_subscription
Frees-remove_subscription t s k x y f g = record {
  at = λ heap h.
      let rest = k (listener_remove t s).0 in
      let (heap', run, less) = (Frees-then (free_subscription s) rest x y f g).at heap h in
      (heap', bind_pure (free_subscription s heap) (listener_remove t s).0 k ∙ run, less);
}
