-- ===== src/Ext/Yammer.antt =====
-- What the extension of src/exts/yammer.c writes, and the removal of an extension.
use c_cometd_client.Prelude.{
  ◌≡◌, ◌≢◌, refl, ap, String, Option, some, List, [], ◌∷◌, All, str_eq, if◌then◌else◌, done, ne→==,
  eq→==,
}
use c_cometd_client.Libs.Json.{JsonLaws, bind}
use c_cometd_client.State.Types.{Ext}
use c_cometd_client.State.{World, Env}
use c_cometd_client.Msg.{channel_meta_handshake, msg_channel}
use c_cometd_client.Ext.{ext_add, ext_remove, yammer_ext, run_yammer_outgoing}

-- An extension that is added and removed again, where no other has its address, leaves the list as it was.
pub ext_remove-ext_add :
    (exts : List Ext) (ext : Ext)
    → All (λ e. e.address ≢ ext.address) exts
    → ext_remove (ext_add exts ext) ext.address ≡ exts
unfolding ext_remove ext_add
ext_remove-ext_add [] ext h = rw (eq→== ext.address ext.address refl) refl
ext_remove-ext_add (e ∷ exts) ext (ne, h) =
    rw (ne→== e.address ext.address ne) (ap (◌∷◌ e) (ext_remove-ext_add exts ext h))

module _ (env : Env) (laws : JsonLaws env.json) where
  open env use {json}
  open json use {Node, Object, get_object, get_member, take_object, set_object_member}

  -- The message with the extension's member.
  abbrev pub authorised : Option String → Object → Node
  authorised token obj = take_object (set_object_member obj "ext" (yammer_ext env token))

  member_said :
      (token : String) (obj : Object) (k : String)
      → bind (get_object (authorised (some token) obj)) (λ o. get_member o k) ≡ (
          if str_eq "ext" k
          then some (take_object (yammer_ext env (some token)))
          else get_member obj k)
  member_said token obj k =
      simp (laws.get-take_object, laws.set_object_member_lem, laws.get_member-set)

  token_said :
      (token : String) → json.get_string_member (yammer_ext env (some token)) "token" ≡ some token
  token_said token = simp (
    laws.set_string_member_lem, laws.set_boolean_member_lem, laws.get_string_member_lem,
    laws.get_member-set, laws.get-string_node,
  )

  -- The yammer extension gives a handshake message a member `ext` that holds the client's token, and
  -- leaves every other member as it was.
  pub run_yammer_outgoing-handshake :
      (msg : Node) (obj : Object) (token k : String) (w : World Node)
      → msg_channel json (some msg) ≡ some channel_meta_handshake
      → get_object msg ≡ some obj
      → w.token ≡ some token
      → (node : Node) × (run_yammer_outgoing env msg w ≡ done (node, w))
        × (bind (get_object node) (λ o. get_member o k) ≡ (
            if str_eq "ext" k
            then some (take_object (yammer_ext env (some token)))
            else get_member obj k))
        × (json.get_string_member (yammer_ext env (some token)) "token" ≡ some token)
  unfolding run_yammer_outgoing
  run_yammer_outgoing-handshake msg obj token k w named found known = (
    authorised (some token) obj,
    simp (named, found, known),
    member_said token obj k,
    token_said token,
  )
