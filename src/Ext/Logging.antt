-- ===== src/Ext/Logging.antt =====
-- The logger of src/exts/logger.c among the extensions: what goes out is printed and stays as it was.
use c_cometd_client.Prelude.{◌≡◌, refl, ◌⊎◌, inl, inr, false, none, some, List, [], ◌∷◌, All, done}
use c_cometd_client.State.Types.{Ext, logger_outgoing}
use c_cometd_client.State.{World, Env, LogLine}
use c_cometd_client.Msg.{msg_channel}
use c_cometd_client.Http.{json_node2str}
use c_cometd_client.Ext.{ext_fire, ext_call, call_set, print_log}

module _ (env : Env) where
  -- Nothing is called on the way out, or the logger of src/exts/logger.c.
  abbrev pub IsLogging : Ext → Type 0
  IsLogging ext = (ext.outgoing ≡ none) ⊎ (ext.outgoing ≡ some logger_outgoing)

  -- Such extensions print, and leave an outgoing message as it is.
  pub ext_fire-IsLogging :
      (exts : List Ext) (msg : env.json.Node) (w : World env.json.Node)
      → All IsLogging exts
      → (printed : List LogLine) × (ext_fire env exts false msg w
          ≡ done (msg, record w { printed = printed }))
  unfolding ext_fire ext_call call_set print_log
  ext_fire-IsLogging [] msg w logging = (w.printed, refl)
  ext_fire-IsLogging (ext ∷ exts) msg w (inl e, logging) =
      let (printed, run) = ext_fire-IsLogging exts msg w logging in (printed, rw e run)
  ext_fire-IsLogging (ext ∷ exts) msg w (inr e, logging) =
      let line : LogLine = record {
        kind = "outgoing";
        channel = msg_channel env.json (some msg);
        text = json_node2str env (some msg);
      } in
      let (printed, run) =
        ext_fire-IsLogging exts msg (record w { printed = line ∷ w.printed }) logging in
      (printed, rw e run)
