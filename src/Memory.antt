-- ===== src/Memory.antt =====
-- The blocks of memory that the client owns: what src/cometd.c, src/conn.c, src/event.c, src/loop.c,
-- src/loops/gthread.c, src/inbox.c, src/error.c, src/ext.c and src/transport.c allocate and free. The cells
-- of a GList and what a GHashTable or a GQueue holds inside are the library's own; malloc does not fail.
pub mod Freeing
pub mod Parts
pub mod Owning
pub mod Destroying
pub mod Firing
use c_cometd_client.Prelude.{
  ℕ, suc, ◌==◌, String, Bool, true, false, Option, none, some, List, [], ◌∷◌, ◌++◌, map,
  if◌then◌else◌, done, crash, Cmd, pure, ◌>>=◌, ◌>>◌,
}
use c_cometd_client.State.Types.{
  Callback, process_handshake, process_connect, Subscription, Listeners,
}
use c_cometd_client.Msg.{channel_meta_handshake, channel_meta_connect}
use c_cometd_client.Event.{listener_add, listener_remove}

-- The addresses of the live blocks, and the next address that malloc gives.
pub record Heap : Type 0 where
  pub live : List ℕ
  pub next : ℕ

abbrev pub mem : ℕ → List ℕ → Bool
mem a [] = false
mem a (b ∷ l) = if b == a then true else mem a l

abbrev pub remove : ℕ → List ℕ → List ℕ
remove a [] = []
remove a (b ∷ l) = let rest = remove a l in if b == a then l else b ∷ rest

abbrev pub malloc : Cmd Heap ℕ
malloc heap = done (heap.next, record { live = heap.next ∷ heap.live; next = suc heap.next })

-- A block that is not live, such as one that was freed before, is a crash.
unfoldable pub free : ℕ → Cmd Heap (Unit {0})
free a heap =
    if mem a heap.live then done (tt, record heap { live = remove a heap.live }) else crash

-- free of NULL, or `if (p != NULL) free(p)`
abbrev pub free_option : Option ℕ → Cmd Heap (Unit {0})
free_option none = pure tt
free_option (some a) = free a

-- g_list_free_full and g_queue_free_full, with the function that frees an element
unfoldable pub free_full : (ℕ → Cmd Heap (Unit {0})) → List ℕ → Cmd Heap (Unit {0})
free_full f [] = pure tt
free_full f (a ∷ l) = do f a; free_full f l

-- The blocks of a `cometd_conn`.
pub record ConnBlocks : Type 0 where
  pub self : ℕ
  pub client_id : Option ℕ
  pub advice : Option ℕ

unfoldable pub new_conn : Cmd Heap ConnBlocks
new_conn = do self ← malloc; pure (record { self = self; client_id = none; advice = none })

unfoldable pub destroy_conn : ConnBlocks → Cmd Heap (Unit {0})
destroy_conn c = do free_option c.client_id; free_option c.advice; free c.self

-- `cometd_conn_take_advice`: the connection owns the block from now on.
unfoldable pub take_advice : ConnBlocks → Option ℕ → Cmd Heap ConnBlocks
take_advice c advice = do free_option c.advice; pure (record c { advice = advice })

-- `cometd_conn_set_client_id`, for an id that is not NULL; strdup allocates.
unfoldable pub set_client_id : ConnBlocks → Cmd Heap ConnBlocks
set_client_id c = do id ← malloc; pure (record c { client_id = some id })

-- The blocks of a `cometd_loop` of src/loops/gthread.c.
pub record LoopBlocks : Type 0 where
  pub self : ℕ
  pub internal : ℕ

-- `cometd_loop_malloc`
abbrev pub malloc_loop : Cmd Heap ℕ
malloc_loop = malloc

unfoldable pub new_loop : Cmd Heap LoopBlocks
new_loop = do
  self ← malloc_loop
  internal ← malloc
  pure (record { self = self; internal = internal })

-- `cometd_loop_gthread_destroy`
abbrev pub destroy_internal : LoopBlocks → Cmd Heap (Unit {0})
destroy_internal l = free l.internal

-- `cometd_loop_destroy`
unfoldable pub destroy_loop : LoopBlocks → Cmd Heap (Unit {0})
destroy_loop l = do destroy_internal l; free l.self

-- `cometd_error_new` and `cometd_error_destroy`
abbrev pub new_error : Cmd Heap ℕ
new_error = malloc

abbrev pub destroy_error : ℕ → Cmd Heap (Unit {0})
destroy_error = free

abbrev pub destroy_ext : ℕ → Cmd Heap (Unit {0})
destroy_ext = free

abbrev pub destroy_transport : ℕ → Cmd Heap (Unit {0})
destroy_transport = free

-- The blocks of a `cometd_inbox`, and the messages in its queue.
pub record InboxBlocks : Type 0 where
  pub self : ℕ
  pub queue : ℕ
  pub messages : List ℕ
  pub c : ℕ
  pub m : ℕ

unfoldable pub new_inbox : Cmd Heap InboxBlocks
new_inbox = do
  self ← malloc
  queue ← malloc
  c ← malloc
  m ← malloc
  pure (record { self = self; queue = queue; messages = []; c = c; m = m })

-- g_queue_free_full, then the rest.
unfoldable pub destroy_inbox : InboxBlocks → Cmd Heap (Unit {0})
destroy_inbox i = do free_full free i.messages; free i.queue; free i.c; free i.m; free i.self

abbrev pub addresses : List Subscription → List ℕ
addresses [] = []
addresses (s ∷ l) = s.address ∷ addresses l

-- The blocks of the subscriptions of a table.
abbrev pub table_addresses : Listeners → List ℕ
table_addresses [] = []
table_addresses ((k, l) ∷ t) = addresses l ++ table_addresses t

-- `cometd_impl_destroy_slist` for each list of the table.
unfoldable pub destroy_lists : Listeners → Cmd Heap (Unit {0})
destroy_lists [] = pure tt
destroy_lists ((k, l) ∷ t) = do free_full free (addresses l); destroy_lists t

-- `cometd_listener_destroy`, with the block of the GHashTable.
unfoldable pub destroy_listeners : ℕ → Listeners → Cmd Heap (Unit {0})
destroy_listeners table t = do destroy_lists t; free table

-- `cometd_listener_remove`: the subscription is freed.
abbrev pub free_subscription : Option Subscription → Cmd Heap (Unit {0})
free_subscription none = pure tt
free_subscription (some s) = free s.address

unfoldable pub remove_subscription : Listeners → Option Subscription → Cmd Heap Listeners
remove_subscription t s = do free_subscription s; pure (listener_remove t s).0

-- The handle with the objects that it owns.
pub record Handle : Type 0 where
  pub self : ℕ
  pub config : ℕ
  pub transports : List ℕ
  pub conn : ConnBlocks
  pub loop : LoopBlocks
  pub inbox : InboxBlocks
  pub table : ℕ
  pub subscriptions : Listeners
  pub last_error : ℕ
  pub handshake : Option Subscription
  pub connect : Option Subscription
  pub exts : List ℕ

-- `cometd_new`; the channels of the internal subscriptions are short enough.
unfoldable pub new_handle : Cmd Heap Handle
new_handle = do
  self ← malloc
  config ← malloc
  transport ← malloc
  conn ← new_conn
  loop ← new_loop
  inbox ← new_inbox
  table ← malloc
  last_error ← new_error
  a ← malloc
  let (t, on_handshake) = listener_add [] a channel_meta_handshake process_handshake
  b ← malloc
  let (t', on_connect) = listener_add t b channel_meta_connect process_connect
  pure (record {
    self = self;
    config = config;
    transports = transport ∷ [];
    conn = conn;
    loop = loop;
    inbox = inbox;
    table = table;
    subscriptions = t';
    last_error = last_error;
    handshake = on_handshake;
    connect = on_connect;
    exts = [];
  })

-- `cometd_destroy`
unfoldable pub destroy_handle : Handle → Cmd Heap (Unit {0})
destroy_handle h = do
  t ← remove_subscription h.subscriptions h.handshake
  t' ← remove_subscription t h.connect
  free_full destroy_transport h.transports
  free h.config
  destroy_listeners h.table t'
  destroy_conn h.conn
  destroy_loop h.loop
  destroy_inbox h.inbox
  destroy_error h.last_error
  free_full destroy_ext h.exts
  free h.self
