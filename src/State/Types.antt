-- ===== src/State/Types.antt =====
-- The records of include/cometd.h, event.h, ext.h and loop.h. A function pointer is the name of the
-- function, and an object that is compared by its pointer has an address.
use c_cometd_client.Prelude.{ℕ, String, Option, List, ℤ}
use c_cometd_client.Conn.Types.{Transport}

-- `cometd_callback`: the two internal handlers, or one of the application's.
pub data Callback : Type 0 where
  process_handshake process_connect : Callback
  foreign : ℕ → Callback

-- `struct _cometd_subscription`
pub record Subscription : Type 0 where
  pub address : ℕ
  pub channel : String
  pub callback : Callback

-- The GHashTable from channels to lists of subscriptions.
abbrev pub Listeners : Type 0
Listeners = List (String × List Subscription)

-- `CometdExtFunc`
pub data ExtFunc : Type 0 where
  logger_incoming logger_outgoing yammer_outgoing : ExtFunc
  foreign_func : ℕ → ExtFunc

-- `struct _cometd_ext`
pub record Ext : Type 0 where
  pub address : ℕ
  pub incoming : Option ExtFunc
  pub outgoing : Option ExtFunc

-- The functions of loops/gthread.c, or those of another loop.
pub data LoopFunc : Type 0 where
  gthread : LoopFunc
  foreign_loop : ℕ → LoopFunc

-- The `thread` of `loop_internal`: its block is not set before a thread starts, and NULL once one was
-- joined.
pub data Thread : Type 0 where
  thread_unset thread_null thread_running : Thread

-- `struct _cometd_loop`, with the thread that `internal` points to.
pub record Loop : Type 0 where
  pub start : Option LoopFunc
  pub stop : Option LoopFunc
  pub wait : Option LoopFunc
  pub destroy : Option LoopFunc
  pub thread : Thread

-- `cometd_config`
pub record Config : Type 0 where
  pub url : String
  pub backoff_increment : ℤ
  pub max_backoff : ℤ
  pub max_network_delay : ℤ
  pub request_timeout : ℤ
  pub append_message_type_to_url : ℤ
  pub transports : List Transport

-- `cometd_opt` with the value that the variadic argument carries.
pub data Opt : Type 0 where
  opt_url : String → Opt
  opt_request_timeout : ℤ → Opt
  opt_loop : Loop → Opt
  opt_backoff_increment : ℤ → Opt
  opt_max_backoff : ℤ → Opt
