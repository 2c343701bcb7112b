-- ===== src/Samples/Memory.antt =====
-- Witnesses on the blocks of the client.
use mathlib.Core.List.{Memᴰ}
use c_cometd_client.Prelude.{ℕ, ◌+◌, ◌≤◌, ◌≡◌, refl, arith, eq_iff, some, [], ◌∷◌, done, ◌>>=◌}
use c_cometd_client.State.Types.{process_handshake, process_connect}
use c_cometd_client.Msg.{channel_meta_handshake, channel_meta_connect}
use c_cometd_client.Event.Table.{lookup}
use c_cometd_client.Event.{subscription}
use c_cometd_client.Memory.{Heap, ConnBlocks, destroy_conn, set_client_id, Handle, destroy_handle}
use c_cometd_client.Memory.Freeing.{count}
use c_cometd_client.Memory.Owning.{handle_blocks, IsOwner}
use c_cometd_client.Memory.Destroying.{destroy_handle-frees, set_client_id-leaks}

-- A handle after a handshake, with an extension and a message in its inbox.
abbrev handle : Handle
handle = record {
  self = 0;
  config = 1;
  transports = 2 ∷ [];
  conn = record { self = 3; client_id = some 14; advice = some 15 };
  loop = record { self = 4; internal = 5 };
  inbox = record { self = 6; queue = 7; messages = 16 ∷ []; c = 8; m = 9 };
  table = 10;
  subscriptions =
      (channel_meta_handshake, subscription 12 channel_meta_handshake process_handshake ∷ [])
      ∷ (channel_meta_connect, subscription 13 channel_meta_connect process_connect ∷ [])
      ∷ [];
  last_error = 11;
  handshake = some (subscription 12 channel_meta_handshake process_handshake);
  connect = some (subscription 13 channel_meta_connect process_connect);
  exts = 17 ∷ [];
}

handle-IsOwner : IsOwner handle
unfolding lookup
handle-IsOwner = record {
  s = subscription 12 channel_meta_handshake process_handshake;
  s' = subscription 13 channel_meta_connect process_connect;
  on_handshake = refl;
  on_connect = refl;
  heard = Memᴰ.head refl;
  heard' = Memᴰ.head refl;
  apart = λ e. ground (arith, eq_iff channel_meta_handshake channel_meta_connect);
}

-- Its blocks, and one of the application's.
abbrev heap : Heap
heap = record { live = 20 ∷ handle_blocks handle; next = 21 }

destroy_handle-frees_example :
    (heap' : Heap) × (destroy_handle handle heap ≡ done (tt, heap'))
    × ((b : ℕ) → count b heap'.live + count b (handle_blocks handle) ≡ count b heap.live)
destroy_handle-frees_example = destroy_handle-frees handle heap handle-IsOwner (λ b. omega arith)

abbrev conn : ConnBlocks
conn = record { self = 3; client_id = some 14; advice = some 15 }

abbrev conn_heap : Heap
conn_heap = record { live = 16 ∷ 3 ∷ 15 ∷ 14 ∷ []; next = 17 }

set_client_id-leaks_example :
    (heap' : Heap) × ((set_client_id conn >>= destroy_conn) conn_heap ≡ done (tt, heap'))
    × ((b : ℕ) → count b heap'.live + count b (15 ∷ 3 ∷ []) ≡ count b conn_heap.live)
    × (1 ≤ count 14 heap'.live)
set_client_id-leaks_example = set_client_id-leaks conn 14 conn_heap refl (λ b. omega arith)
