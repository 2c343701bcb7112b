-- ===== src/Memory/Destroying.antt =====
-- `cometd_destroy` on any handle and on a new one, and what a second handshake loses.
use mathlib.Core.List.{Memᴰ}
use c_cometd_client.Prelude.{
  ℕ, suc, ◌+◌, ◌≤◌, ◌≡◌, ◌∙◌, refl, arith, eq_iff, Option, some, [], ◌∷◌, ◌++◌, done, pure,
  and_then_step, ◌>>=◌,
}
use c_cometd_client.Msg.{channel_meta_handshake, channel_meta_connect}
use c_cometd_client.Event.Table.{lookup, insert}
use c_cometd_client.Event.{listener_add}
use c_cometd_client.Memory.{
  Heap, ConnBlocks, new_conn, destroy_conn, take_advice, set_client_id, new_loop, new_inbox, Handle,
  new_handle, destroy_handle,
}
use c_cometd_client.Memory.Freeing.{count, count-append, option_list, Frees-free_option}
use c_cometd_client.Memory.Parts.{conn_blocks, count-conn_blocks, destroy_conn-Frees}
use c_cometd_client.Memory.Owning.{handle_blocks, IsOwner, destroy_handle-Frees}

-- Where a handle's two internal subscriptions stand in its table and all its blocks are live, each as
-- often as the handle has it, `cometd_destroy` ends without freeing a block that is not live, and leaves
-- every other block as it was: nothing is freed twice, and nothing of the handle is left.
pub destroy_handle-frees :
    (h : Handle) (heap : Heap)
    → IsOwner h
    → ((b : ℕ) → count b (handle_blocks h) ≤ count b heap.live)
    → (heap' : Heap) × (destroy_handle h heap ≡ done (tt, heap'))
      × ((b : ℕ) → count b heap'.live + count b (handle_blocks h) ≡ count b heap.live)
destroy_handle-frees h heap o owned = (destroy_handle-Frees h o).at heap owned

new_handle-owned :
    (heap : Heap)
    → (h : Handle) × (heap' : Heap) × (new_handle heap ≡ done (h, heap'))
      × IsOwner h
      × ((b : ℕ) → count b heap'.live ≡ count b (handle_blocks h) + count b heap.live)
unfolding new_handle new_conn new_loop new_inbox listener_add insert lookup
new_handle-owned heap = (
  _,
  _,
  refl,
  record {
    s = _;
    s' = _;
    on_handshake = refl;
    on_connect = refl;
    heard = Memᴰ.head refl;
    heard' = Memᴰ.head refl;
    apart = λ e. ground (arith, eq_iff channel_meta_handshake channel_meta_connect);
  },
  λ b. omega arith,
)

-- From any heap, a new handle that is destroyed leaves each block live as often as it was.
pub destroy_handle-new_handle :
    (heap : Heap)
    → (heap' : Heap) × ((new_handle >>= destroy_handle) heap ≡ done (tt, heap'))
      × ((b : ℕ) → count b heap'.live ≡ count b heap.live)
destroy_handle-new_handle heap =
    let (h, heap₁, made, o, more) = new_handle-owned heap in
    let (heap₂, run, less) = destroy_handle-frees h heap₁ o (λ b. omega (arith, more b)) in
    (heap₂, and_then_step destroy_handle made ∙ run, λ b. omega (arith, more b, less b))

-- A connection that takes advice and is destroyed later frees its own blocks, the advice that it had
-- and the one that it took, where all of these are live.
pub destroy_conn-take_advice :
    (c : ConnBlocks) (advice : Option ℕ) (heap : Heap)
    → ((b : ℕ) → count b (conn_blocks c) + count b (option_list advice) ≤ count b heap.live)
    → (heap' : Heap) × ((take_advice c advice >>= destroy_conn) heap ≡ done (tt, heap'))
      × ((b : ℕ)
          → count b heap'.live + count b (conn_blocks c) + count b (option_list advice)
            ≡ count b heap.live)
unfolding take_advice
destroy_conn-take_advice c advice heap owned =
    let taken = record c { advice = advice } in
    let (heap₁, run, less) =
      (Frees-free_option c.advice).at heap (λ b. omega (arith, owned b, count-conn_blocks b c)) in
    let (heap₂, run', less') =
      (destroy_conn-Frees taken).at heap₁
        (λ b. omega (arith, owned b, less b, count-conn_blocks b c, count-conn_blocks b taken)) in
    (
      heap₂,
      and_then_step destroy_conn (and_then_step (λ u. pure taken) run) ∙ run',
      λ b. omega (arith, less b, less' b, count-conn_blocks b c, count-conn_blocks b taken),
    )

one_of_client :
    (c : ConnBlocks) (a : ℕ) → c.client_id ≡ some a → count a (option_list c.client_id) ≡ 1
one_of_client c a e = rw e (ground arith)

-- A connection that has a client id, takes another one as a further handshake makes it do, and is
-- destroyed: the block of the first id is still live, as every block but those of the advice and of
-- the connection itself is.
pub set_client_id-leaks :
    (c : ConnBlocks) (a : ℕ) (heap : Heap)
    → c.client_id ≡ some a
    → ((b : ℕ) → count b (conn_blocks c) ≤ count b heap.live)
    → (heap' : Heap) × ((set_client_id c >>= destroy_conn) heap ≡ done (tt, heap'))
      × ((b : ℕ)
          → count b heap'.live + count b (option_list c.advice ++ c.self ∷ []) ≡ count b heap.live)
      × (1 ≤ count a heap'.live)
unfolding set_client_id
set_client_id-leaks c a heap e owned =
    let named = record c { client_id = some heap.next } in
    let larger : Heap = record { live = heap.next ∷ heap.live; next = suc heap.next } in
    let (heap', run, less) =
      (destroy_conn-Frees named).at larger
        (λ b. omega (arith, owned b, count-conn_blocks b c, count-conn_blocks b named)) in
    (
      heap',
      run,
      λ b. omega (
        arith,
        less b,
        count-conn_blocks b named,
        count-append b (option_list c.advice) (c.self ∷ []),
      ),
      omega (
        arith,
        less a,
        owned a,
        count-conn_blocks a named,
        count-conn_blocks a c,
        one_of_client c a e,
      ),
    )
