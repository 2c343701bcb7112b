-- ===== src/Http.antt =====
-- src/http.c, src/json.c, src/error.c and src/transport_long_polling.c: posting a message and reading
-- the reply. curl and json-glib are parameters.
pub mod Failures
pub mod Answers
use Prim.Native.String
use c_cometd_client.Prelude.{
  ℕ, String, Bool, true, false, ◌&&◌, Option, none, some, List, [], ◌∷◌, ℤ, leb, if◌then◌else◌,
  Outcome, done, crash, Cmd, pure, reads, modify, gets, ◌>>=◌, ◌>>◌,
}
use c_cometd_client.Libs.Json.{JsonGlib}
use c_cometd_client.Conn.Types.{Code, success, json_serialize, json_deserialize, send}
use c_cometd_client.State.{
  Cometd, World, Env, LastError, Post, Reply, no_curl, no_memory, performed, on_conn,
}
use c_cometd_client.Msg.{msg_wrap, msg_connect_new}

-- The memory that WriteMemoryCallback fills. Until it is called, the one byte of it is not set.
pub data Buffer : Type 0 where
  unset : Buffer
  text : String → Buffer

unfoldable pub write_memory : Buffer → String → Buffer
write_memory unset chunk = text chunk
write_memory (text memory) chunk = text (String.◌++◌ memory chunk)

unfoldable pub write_chunks : Buffer → List String → Buffer
unfolding write_memory
write_chunks memory [] = memory
write_chunks memory (chunk ∷ chunks) = write_chunks (write_memory memory chunk) chunks

unfoldable pub http_ok : Bool → ℕ → Bool
http_ok res_ok http_code = res_ok && (leb 200 http_code && leb http_code 299)

module _ (env : Env) where
  open env use {json, perform}
  open json use {Node, to_data, load_from_data}

  abbrev pub receive : Post → World Node → Reply → Option Buffer × World Node
  receive post w no_curl = (none, w)
  receive post w no_memory = (none, w)
  receive post w (performed res_ok http_code chunks) = (
    if http_ok res_ok http_code then some (write_chunks unset chunks) else none,
    record w { posts = post ∷ w.posts },
  )

  unfoldable pub http_json_post : String → String → ℤ → Cmd (World Node) (Option Buffer)
  http_json_post url body timeout w =
      let post : Post = record { url = url; body = body; timeout = timeout } in
      done (receive post w (perform w.posts post))

  -- strlen of memory that is not set is a crash.
  unfoldable pub json_str2node : Buffer → Outcome (Option Node)
  json_str2node unset = crash
  json_str2node (text str) = done (load_from_data str)

  unfoldable pub json_node2str : Option Node → Option String
  json_node2str node = to_data node

  unfoldable pub error : Code → String → Cmd (World Node) Code
  error code message w =
      let last_error : LastError = record { code = code; message = some message } in
      done (code, record w { h = record w.h { last_error = last_error } })

  -- The parse of a response, with the error that is noted where it gives NULL.
  abbrev pub note_parse : Option Node → Cmd (World Node) (Option Node)
  note_parse (some payload) = pure (some payload)
  note_parse none = do _ ← error json_deserialize "could not de-serialize json"; pure none

  abbrev pub note_response : Option Buffer → Cmd (World Node) (Option Node)
  note_response none = do _ ← error send "could not post"; pure none
  note_response (some resp) = do payload ← reads (λ w. json_str2node resp); note_parse payload

  abbrev pub post_data : Option String → Cmd (World Node) (Option Node)
  post_data none = do _ ← error json_serialize "could not serialize json"; pure none
  post_data (some body) = do
    w ← gets (λ w. w)
    resp ← http_json_post w.h.config.url body w.h.config.request_timeout
    note_response resp

  unfoldable pub http_post_msg : Node → Cmd (World Node) (Option Node)
  http_post_msg msg = post_data (json_node2str (some msg))

  abbrev pub read_response : Option Buffer → Cmd (World Node) (Option Node)
  read_response none = pure none
  read_response (some resp) = reads (λ w. json_str2node resp)

  abbrev pub send_data : Option String → Cmd (World Node) (Option Node)
  send_data none = pure none
  send_data (some body) = do
    w ← gets (λ w. w)
    resp ← http_json_post w.h.config.url body w.h.config.request_timeout
    read_response resp

  -- `send` of transport_long_polling.c, and its two callers
  unfoldable pub transport_long_polling_send : Node → Cmd (World Node) (Option Node)
  transport_long_polling_send node = send_data (json_node2str (some node))

  unfoldable pub transport_long_polling_recv : Cmd (World Node) (Option Node)
  transport_long_polling_recv = do
    connect ← on_conn (msg_connect_new json)
    transport_long_polling_send (msg_wrap json connect)
