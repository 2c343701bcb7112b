-- ===== src/State.antt =====
-- include/cometd.h: the handle `cometd` with what it points to, and the world around it: the requests
-- that were posted, the time that was slept, what was printed, and the foreign code that is called.
pub mod Types
pub mod Keeping
use c_cometd_client.Prelude.{ℕ, String, Bool, Option, List, ℤ, Outcome, done, crash, starved, Cmd}
use c_cometd_client.Libs.Json.{JsonGlib}
use c_cometd_client.Libs.Strings.{GStrings}
use c_cometd_client.Conn.Types.{Code, Conn}
use Types.{Config, Subscription, Listeners, Ext, Loop}

-- `cometd_error_st`
pub record LastError : Type 0 where
  pub code : Code
  pub message : Option String

-- `cometd_sys_s`; the three further handlers are always NULL.
pub record SysHandlers : Type 0 where
  pub handshake : Option Subscription
  pub connect : Option Subscription

-- `struct _cometd`; `inbox` is the queue of the inbox, the oldest message first.
pub record Cometd (Node : Type 0) : Type 0 where
  pub conn : Conn
  pub config : Config
  pub last_error : LastError
  pub loop : Loop
  pub inbox : List Node
  pub subscriptions : Listeners
  pub sys_s : SysHandlers
  pub exts : List Ext

-- An HTTP POST with the content type application/json.
pub record Post : Type 0 where
  pub url : String
  pub body : String
  pub timeout : ℤ

-- A line that logger.c prints: the direction, the channel and the text, either of which may be NULL.
pub record LogLine : Type 0 where
  pub kind : String
  pub channel : Option String
  pub text : Option String

-- What curl does with a request: curl_easy_init gives NULL, the first malloc does, or
-- curl_easy_perform runs and hands the body over in chunks.
pub data Reply : Type 0 where
  no_curl no_memory : Reply
  performed : Bool → ℕ → List String → Reply

-- `posts`, `sleeps` and `printed` have the newest entry first. `allocated` counts the subscriptions
-- and extensions that were allocated, and gives each its address. `token` is `g_token` of yammer.c.
pub record World (Node : Type 0) : Type 0 where
  pub h : Cometd Node
  pub posts : List Post
  pub sleeps : List ℤ
  pub printed : List LogLine
  pub allocated : ℕ
  pub token : Option String

-- The code outside the repository: the libraries, the server behind curl, and the application's
-- callbacks, transports, extensions and run loops, which are free to call the client in turn.
pub record Env : Type 1 where
  pub json : JsonGlib
  pub strings : GStrings
  -- the reply to a request, given the requests before it
  pub perform : List Post → Post → Reply
  pub callback : ℕ → json.Node → Cmd (World json.Node) Code
  pub foreign_send : ℕ → json.Node → Cmd (World json.Node) (Option json.Node)
  pub foreign_recv : ℕ → Cmd (World json.Node) (Option json.Node)
  -- an extension may write into the message that it is given, or be given NULL
  pub foreign_ext : ℕ → json.Node → Cmd (World json.Node) json.Node
  pub foreign_ext_null : ℕ → Cmd (World json.Node) (Unit {0})
  pub foreign_start : ℕ → Cmd (World json.Node) ℕ
  pub foreign_stop : ℕ → Cmd (World json.Node) (Unit {0})
  pub foreign_wait : ℕ → ℤ → Cmd (World json.Node) (Unit {0})
  pub foreign_destroy : ℕ → Cmd (World json.Node) (Unit {0})

-- A command on the connection, as one on the world.
module _ {Node : Type 0} where
  abbrev pub put_conn : World Node → Conn → World Node
  put_conn w conn = record w { h = record w.h { conn = conn } }

  abbrev pub lift_conn : {A : Type 0} → World Node → Outcome (A × Conn) → Outcome (A × World Node)
  lift_conn w (done (a, conn)) = done (a, put_conn w conn)
  lift_conn w crash = crash
  lift_conn w starved = starved

  abbrev pub on_conn : {A : Type 0} → Cmd Conn A → Cmd (World Node) A
  on_conn m w = lift_conn w (m w.h.conn)
