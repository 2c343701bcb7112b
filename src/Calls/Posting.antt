-- ===== src/Calls/Posting.antt =====
-- Posting and the extensions: what src/http.c, src/transport_long_polling.c, src/error.c, src/ext.c and
-- src/exts do to the client.
use c_cometd_client.Prelude.{
  ℕ, ℤ, refl, Bool, String, List, [], ◌∷◌, Option, none, some, Keeps, keeps_rules, Keeps-done,
}
use c_cometd_client.Conn.Types.{Code}
use c_cometd_client.State.Types.{Ext}
use c_cometd_client.State.{Env, Post}
use c_cometd_client.Http.{Buffer, error, note_parse, note_response, post_data, http_post_msg}
use c_cometd_client.Ext.{print_log, ext_fire, ext_fire_null}
use c_cometd_client.Client.{W}
use c_cometd_client.Calls.Sound.{ConnSound-IsPreorder, Sound, Sound-IsPreorder, unmoved}
use c_cometd_client.Calls.Ids.{on_conn-KeepsSound, msg_connect_new-Keeps, msg_bad_connect_new-Keeps}
use c_cometd_client.Ext.Keeping.{ext_fire-Keeps, ext_fire_null-Keeps}
use c_cometd_client.Receiving.Keeping.{KeptByReceive, http_json_post-Keeps}

-- The code outside the repository, which may call the client, does what the client's calls do.
pub record ForeignSound (env : Env) : Type 0 where
  pub callback : (n : ℕ) (msg : env.json.Node) → Keeps Sound (env.callback n msg)
  pub send : (n : ℕ) (msg : env.json.Node) → Keeps Sound (env.foreign_send n msg)
  pub recv : (n : ℕ) → Keeps Sound (env.foreign_recv n)
  pub ext : (n : ℕ) (msg : env.json.Node) → Keeps Sound (env.foreign_ext n msg)
  pub ext_null : (n : ℕ) → Keeps Sound (env.foreign_ext_null n)
  pub start : (n : ℕ) → Keeps Sound (env.foreign_start n)
  pub stop : (n : ℕ) → Keeps Sound (env.foreign_stop n)
  pub wait : (n : ℕ) (millis : ℤ) → Keeps Sound (env.foreign_wait n millis)
  pub destroy : (n : ℕ) → Keeps Sound (env.foreign_destroy n)

module _ (env : Env) where
  open env use {json}
  open json use {Node}

  pub posted-Sound : (w : W env) (post : Post) → Sound w (record w { posts = post ∷ w.posts })
  posted-Sound w post = record {
    conn = ConnSound-IsPreorder.same w.h.conn;
    table = λ t. t;
    posted = (post ∷ [], refl);
  }

  pub error-Keeps : (code : Code) (message : String) → Keeps Sound (error env code message)
  unfolding error
  error-Keeps code message =
      Keeps-done _ (λ w. code) _ (λ w. refl) (λ w. unmoved _ _ refl refl refl refl)

  note_parse-Keeps : (r : Option Node) → Keeps Sound (note_parse env r)
  note_parse-Keeps none = search (keeps_rules, error-Keeps)
  note_parse-Keeps (some payload) = search keeps_rules

  note_response-Keeps : (r : Option Buffer) → Keeps Sound (note_response env r)
  note_response-Keeps none = search (keeps_rules, error-Keeps)
  note_response-Keeps (some resp) = search (keeps_rules, note_parse-Keeps)

  post_data-Keeps : (body : Option String) → Keeps Sound (post_data env body)
  post_data-Keeps none = search (keeps_rules, error-Keeps)
  post_data-Keeps (some body) = search (
    keeps_rules,
    http_json_post-Keeps env Sound Sound-IsPreorder posted-Sound,
    note_response-Keeps,
  )

  pub http_post_msg-Keeps : (msg : Node) → Keeps Sound (http_post_msg env msg)
  unfolding http_post_msg
  http_post_msg-Keeps msg = post_data-Keeps _

  pub received-Sound : ForeignSound env → KeptByReceive env Sound
  received-Sound outside = record {
    posted = posted-Sound;
    slept = λ w sleeps. unmoved _ _ refl refl refl refl;
    pushed = λ w inbox. unmoved _ _ refl refl refl refl;
    connects = on_conn-KeepsSound _ (msg_connect_new-Keeps json);
    fails = on_conn-KeepsSound _ (msg_bad_connect_new-Keeps json);
    waits = outside.wait;
    recvs = outside.recv;
  }

  print_log-Keeps : (kind : String) (node : Option Node) → Keeps Sound (print_log env kind node)
  unfolding print_log
  print_log-Keeps kind msg =
      Keeps-done _ (λ w. tt) _ (λ w. refl) (λ w. unmoved _ _ refl refl refl refl)

  module _ (outside : ForeignSound env) where
    pub ext_fire-KeepsSound :
        (exts : List Ext) (incoming : Bool) (node : Node)
        → Keeps Sound (ext_fire env exts incoming node)
    ext_fire-KeepsSound exts incoming msg =
        ext_fire-Keeps env Sound Sound-IsPreorder print_log-Keeps outside.ext exts incoming msg

    pub ext_fire_null-KeepsSound :
        (exts : List Ext) (incoming : Bool) → Keeps Sound (ext_fire_null env exts incoming)
    ext_fire_null-KeepsSound exts incoming =
        ext_fire_null-Keeps env Sound Sound-IsPreorder print_log-Keeps outside.ext_null exts
          incoming
