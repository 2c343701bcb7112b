-- ===== src/Ext.antt =====
-- src/ext.c with the two extensions src/exts/logger.c and src/exts/yammer.c.
pub mod Firing
pub mod Logging
pub mod Keeping
pub mod Yammer
use c_cometd_client.Prelude.{
  ℕ, suc, String, Bool, true, false, Option, none, some, List, [], ◌∷◌, ◌++◌, ◌==◌, str_eq,
  if◌then◌else◌, Outcome, done, crash, Cmd, pure, reads, modify, gets, ◌>>=◌, ◌>>◌,
}
use c_cometd_client.Libs.Json.{JsonGlib}
use c_cometd_client.State.Types.{
  ExtFunc, logger_incoming, logger_outgoing, yammer_outgoing, foreign_func, Ext,
}
use c_cometd_client.State.{World, Env, LogLine}
use c_cometd_client.Msg.{channel_meta_handshake, msg_channel}
use c_cometd_client.Http.{json_node2str}

unfoldable pub ext_new : ℕ → Ext
ext_new address = record { address = address; incoming = none; outgoing = none }

unfoldable pub ext_add : List Ext → Ext → List Ext
ext_add exts ext = exts ++ ext ∷ []

-- g_list_remove by the address; the extension is freed.
unfoldable pub ext_remove : List Ext → ℕ → List Ext
ext_remove [] address = []
ext_remove (e ∷ exts) address = if e.address == address then exts else e ∷ ext_remove exts address

unfoldable pub ext_logger_new : ℕ → Ext
unfolding ext_new
ext_logger_new address = record (ext_new address) {
  incoming = some logger_incoming;
  outgoing = some logger_outgoing;
}

module _ (env : Env) where
  open env use {json, foreign_ext, foreign_ext_null}
  open json use {
    Node, Object, get_object, object_new, take_object, set_string_member, set_boolean_member,
    set_object_member,
  }

  -- The extension is returned, and the token goes to a global variable.
  unfoldable pub ext_yammer_new : ℕ → Option String → Cmd (World Node) Ext
  unfolding ext_new
  ext_yammer_new address token = do
    modify (λ w. record w { token = token })
    pure (record (ext_new address) { outgoing = some yammer_outgoing })

  unfoldable pub print_log : String → Option Node → Cmd (World Node) (Unit {0})
  unfolding json_node2str
  print_log kind node w =
      let line : LogLine = record {
        kind = kind;
        channel = msg_channel json node;
        text = json_node2str env node;
      } in
      done (tt, record w { printed = line ∷ w.printed })

  -- The members that yammer.c adds to the message.
  abbrev pub yammer_ext : Option String → Object
  yammer_ext token =
      let ext = set_string_member object_new "auth" (some "oauth") in
      let ext = set_string_member ext "token" token in
      let ext = set_boolean_member ext "push_message_bodies" true in
      set_boolean_member ext "ack" false

  abbrev pub authorise : Option String → Node → Option Object → Node
  authorise token msg none = msg
  authorise token msg (some obj) = take_object (set_object_member obj "ext" (yammer_ext token))

  abbrev pub yammer_write : Option String → Node → Option String → Outcome Node
  yammer_write token msg none = crash
  yammer_write token msg (some channel) =
      done (
        if str_eq channel channel_meta_handshake then authorise token msg (get_object msg) else msg)

  unfoldable pub run_yammer_outgoing : Node → Cmd (World Node) Node
  run_yammer_outgoing msg = reads (λ w. yammer_write w.token msg (msg_channel json (some msg)))

  -- The call of an extension's function, and the message as it is afterwards.
  unfoldable pub ext_call : ExtFunc → Node → Cmd (World Node) Node
  unfolding print_log run_yammer_outgoing
  ext_call logger_incoming node = do print_log "incoming" (some node); pure node
  ext_call logger_outgoing node = do print_log "outgoing" (some node); pure node
  ext_call yammer_outgoing node = run_yammer_outgoing node
  ext_call (foreign_func n) node = foreign_ext n node

  unfoldable pub ext_call_null : ExtFunc → Cmd (World Node) (Unit {0})
  unfolding print_log
  ext_call_null logger_incoming = print_log "incoming" none
  ext_call_null logger_outgoing = print_log "outgoing" none
  ext_call_null yammer_outgoing = reads (λ w. crash)
  ext_call_null (foreign_func n) = foreign_ext_null n

  unfoldable pub call_set : Option ExtFunc → Node → Cmd (World Node) Node
  unfolding ext_call
  call_set none node = pure node
  call_set (some f) node = ext_call f node

  unfoldable pub call_set_null : Option ExtFunc → Cmd (World Node) (Unit {0})
  unfolding ext_call_null
  call_set_null none = pure tt
  call_set_null (some f) = ext_call_null f

  abbrev pub direction : Bool → Ext → Option ExtFunc
  direction true ext = ext.incoming
  direction false ext = ext.outgoing

  -- `cometd_impl_ext_fire`; the flag says whether the message comes in.
  unfoldable pub ext_fire : List Ext → Bool → Node → Cmd (World Node) Node
  unfolding ext_call
  ext_fire [] incoming node = pure node
  ext_fire (ext ∷ exts) incoming node = do
    node' ← call_set (direction incoming ext) node
    ext_fire exts incoming node'

  -- The same for a message that is NULL.
  unfoldable pub ext_fire_null : List Ext → Bool → Cmd (World Node) (Unit {0})
  unfolding ext_call_null
  ext_fire_null [] incoming = pure tt
  ext_fire_null (ext ∷ exts) incoming = do
    call_set_null (direction incoming ext)
    ext_fire_null exts incoming
