-- ===== src/Memory/Firing.antt =====
-- The loop of `cometd_listener_fire` on the blocks of the subscriptions, of which a callback may have
-- unsubscribed, and so freed, some before their turn comes.
use mathlib.Core.List.{Memᴰ}
use mathlib.Core.List.Memᴰ
use c_cometd_client.Prelude.{
  Bool, ℕ, ◌≡◌, ◌∙◌, refl, ap, arith, true, false, Bool-cases, inl, inr, some, List, [], ◌∷◌, All,
  if◌then◌else◌, Outcome, done, crash, starved, Cmd, pure, and_then, and_then_step, and_then-reads,
  reads_crash, ◌>>=◌,
}
use c_cometd_client.Conn.Types.{Code, success, unknown, is_success}
use c_cometd_client.State.Types.{Callback, Subscription, Listeners}
use c_cometd_client.Event.{listener_remove, fire_loop, read_callback}
use c_cometd_client.Memory.{Heap, mem, remove, free, remove_subscription}
use c_cometd_client.Memory.Freeing.{count, mem_of_count, count-remove, one}

-- The heap, and the table of subscriptions whose blocks stand in it.
pub record Blocks : Type 0 where
  pub heap : Heap
  pub table : Listeners

abbrev pub IsLive : Subscription → Blocks → Type 0
IsLive s b = mem s.address b.heap.live ≡ true

abbrev pub block_lives : Blocks → Subscription → Bool
block_lives b s = mem s.address b.heap.live

abbrev removal : Outcome (Listeners × Heap) → Outcome (Code × Blocks)
removal (done (t, rest)) = done (success, record { heap = rest; table = t })
removal crash = crash
removal starved = starved

-- `cometd_unsubscribe` from a callback, of a subscription that is not the only one of its channel.
unfoldable pub unsubscribing : Subscription → Cmd Blocks Code
unsubscribing s b = removal (remove_subscription b.table (some s) b.heap)

dead_of_count : (a : ℕ) (l : List ℕ) → count a l ≡ 0 → mem a l ≡ false
dead_of_count a [] h = refl
dead_of_count a (b ∷ l) h = ground (arith, dead_of_count a l)

-- A block that stands once in the heap: unsubscribing frees it.
unsubscribing-frees :
    (x : Subscription) (b : Blocks)
    → count x.address b.heap.live ≡ 1
    → (b' : Blocks) × (unsubscribing x b ≡ done (success, b'))
      × (mem x.address b'.heap.live ≡ false)
unfolding unsubscribing remove_subscription free
unsubscribing-frees x b once =
    let a = x.address in
    let here = mem_of_count a b.heap.live (omega (arith, once)) in
    (
      record {
        heap = record b.heap { live = remove a b.heap.live };
        table = (listener_remove b.table (some x)).0;
      },
      rw here refl,
      dead_of_count a (remove a b.heap.live)
          (omega (arith, once, one a, count-remove a a b.heap.live here)),
    )

module _ (call : Callback → Cmd Blocks Code) where
  -- The loop of `cometd_listener_fire` on the blocks.
  abbrev pub fire_blocks : List Subscription → Cmd Blocks Code
  fire_blocks = fire_loop block_lives call

  -- What the loop would do, if it knew the callbacks from the start.
  unfoldable pub fire_values : List Subscription → Cmd Blocks Code
  fire_values [] = pure success
  fire_values (s ∷ list) = do
    code ← call s.callback
    (if is_success code then fire_values list else pure unknown)

  abbrev rest_of : List Subscription → Code → Cmd Blocks Code
  rest_of list code = if is_success code then fire_blocks list else pure unknown

  fire_blocks_live :
      (s : Subscription) (list : List Subscription) (b : Blocks)
      → IsLive s b
      → fire_blocks (s ∷ list) b ≡ and_then (call s.callback b) (rest_of list)
  unfolding fire_loop
  fire_blocks_live s list b here =
      and_then-reads (read_callback block_lives call s) b s.callback
        (λ callback. call callback >>= rest_of list) (rw here refl)

  fire_blocks_freed :
      (s : Subscription) (list : List Subscription) (b : Blocks)
      → mem s.address b.heap.live ≡ false
      → fire_blocks (s ∷ list) b ≡ crash
  unfolding fire_loop
  fire_blocks_freed s list b gone =
      ap (λ o. and_then o (λ callback. call callback >>= rest_of list))
        (reads_crash (read_callback block_lives call s) b (rw gone refl))

  -- No callback frees a subscription whose turn is still to come.
  abbrev pub Spares : List Subscription → Type 0
  Spares [] = Unit {0}
  Spares (s ∷ list) =
      ((b b' : Blocks) (code : Code)
        → call s.callback b ≡ done (code, b')
        → All (λ x. IsLive x b) list
        → All (λ x. IsLive x b') list)
      × Spares list

  -- Where every subscription of the list is live, and no callback frees one whose turn is still to come,
  -- the loop on the blocks is the loop that knows the callbacks from the start. A callback may so
  -- unsubscribe itself, and those before it.
  pub fire_blocks-fire_values :
      (list : List Subscription) (b : Blocks)
      → All (λ x. IsLive x b) list
      → Spares list
      → fire_blocks list b ≡ fire_values list b
  unfolding fire_loop fire_values
  fire_blocks-fire_values [] b live spares = refl
  fire_blocks-fire_values (s ∷ list) b (here, live) (spared, spares) =
      fire_blocks_live s list b here
      ∙ after (λ b' live. fire_blocks-fire_values list b' live spares) (call s.callback b)
          (λ code b' e. spared b b' code e live)
    where
      after :
          ((b' : Blocks) → All (λ x. IsLive x b') list → fire_blocks list b' ≡ fire_values list b')
          → (o : Outcome (Code × Blocks))
          → ((code : Code) (b' : Blocks) → o ≡ done (code, b') → All (λ x. IsLive x b') list)
          → and_then o (λ code. if is_success code then fire_blocks list else pure unknown)
            ≡ and_then o (λ code. if is_success code then fire_values list else pure unknown)
      after same (done (code, b')) still = elim (Bool-cases (is_success code)) [
        | inl ok ↦ rw ok (same b' (still code b' refl))
        | inr fails ↦ rw fails refl
      ]
      after same crash still = refl
      after same starved still = refl

  -- The callbacks of the list end with success, and none allocates the block of `x` again.
  abbrev pub Quiet : Subscription → List Subscription → Type 0
  Quiet x [] = Unit {0}
  Quiet x (s ∷ list) =
      ((b : Blocks)
        → mem x.address b.heap.live ≡ false
        → (b' : Blocks) × (call s.callback b ≡ done (success, b'))
          × (mem x.address b'.heap.live ≡ false))
      × Quiet x list

  fire_blocks-dead :
      (x : Subscription) (list : List Subscription) (b : Blocks)
      → mem x.address b.heap.live ≡ false
      → Memᴰ x list
      → Quiet x list
      → fire_blocks list b ≡ crash
  unfolding fire_loop
  fire_blocks-dead x [] b dead m quiet = absurd (Memᴰ.not-nil m)
  fire_blocks-dead x (s ∷ list) b dead m (silent, quiet) =
      elim (Bool-cases (mem s.address b.heap.live)) [
        | inr gone ↦ fire_blocks_freed s list b gone
        | inl here ↦ elim (Memᴰ.cases_cons m) [
          | inl e ↦ ground (arith, here, dead, ap (λ y. mem y.address b.heap.live) e)
          | inr later ↦
              let (b', run, still) = silent b dead in
              fire_blocks_live s list b here
              ∙ and_then_step (rest_of list) run
              ∙ fire_blocks-dead x list b' still later quiet
        ]
      ]

  -- A subscription that stands in the list behind another, whose callback unsubscribes it; the callbacks behind
  -- that one end with success and do not allocate its block again. Then the loop reads a block that
  -- was freed.
  pub fire_blocks-crash :
      (s x : Subscription) (list : List Subscription) (b : Blocks)
      → IsLive s b
      → count x.address b.heap.live ≡ 1
      → Memᴰ x list
      → Quiet x list
      → call s.callback b ≡ unsubscribing x b
      → fire_blocks (s ∷ list) b ≡ crash
  unfolding fire_loop
  fire_blocks-crash s x list b here once m quiet run =
      let (b', freed, dead) = unsubscribing-frees x b once in
      fire_blocks_live s list b here
      ∙ and_then_step (rest_of list) (run ∙ freed)
      ∙ fire_blocks-dead x list b' dead m quiet
