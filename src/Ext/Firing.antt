-- ===== src/Ext/Firing.antt =====
-- The order in which the extensions of src/ext.c run.
use c_cometd_client.Prelude.{
  ◌≡◌, refl, ap, ◌∙◌, Bool, true, false, Option-cases, inl, inr, none, some, List, [], ◌∷◌, ◌++◌,
  done, Cmd, pure, and_then, ◌>>=◌,
}
use c_cometd_client.State.Types.{Ext, ExtFunc}
use c_cometd_client.State.{World, Env}
use c_cometd_client.Ext.{ext_add, ext_fire, ext_call, call_set}

-- The functions that are set for messages that come in, and for those that go out.
abbrev pub incomings : List Ext → List ExtFunc
incomings [] = []
incomings (ext ∷ exts) = elim ext.incoming [ none ↦ incomings exts | some f ↦ f ∷ incomings exts ]

abbrev pub outgoings : List Ext → List ExtFunc
outgoings [] = []
outgoings (ext ∷ exts) = elim ext.outgoing [ none ↦ outgoings exts | some f ↦ f ∷ outgoings exts ]

module _ (env : Env) where
  -- Functions that are called one after the other, each on the message as the one before leaves it.
  abbrev pub chain : List ExtFunc → env.json.Node → Cmd (World env.json.Node) env.json.Node
  chain [] msg = pure msg
  chain (f ∷ fs) msg = do msg' ← ext_call env f msg; chain fs msg'

  ext_fire-incoming :
      (exts : List Ext) (msg : env.json.Node) (w : World env.json.Node)
      → ext_fire env exts true msg w ≡ chain (incomings exts) msg w
  unfolding ext_fire call_set
  ext_fire-incoming [] msg w = refl
  ext_fire-incoming (ext ∷ exts) msg w = elim (Option-cases ext.incoming) [
    | inl nothing ↦ rw nothing (ext_fire-incoming exts msg w)
    | inr (f, set) ↦
        rw set
          (ap (and_then (ext_call env f msg w)) (λ i msg' w'. ext_fire-incoming exts msg' w' i))
  ]

  ext_fire-outgoing :
      (exts : List Ext) (msg : env.json.Node) (w : World env.json.Node)
      → ext_fire env exts false msg w ≡ chain (outgoings exts) msg w
  unfolding ext_fire call_set
  ext_fire-outgoing [] msg w = refl
  ext_fire-outgoing (ext ∷ exts) msg w = elim (Option-cases ext.outgoing) [
    | inl nothing ↦ rw nothing (ext_fire-outgoing exts msg w)
    | inr (f, set) ↦
        rw set
          (ap (and_then (ext_call env f msg w)) (λ i msg' w'. ext_fire-outgoing exts msg' w' i))
  ]

  incomings-add :
      (exts : List Ext) (ext : Ext)
      → incomings (exts ++ ext ∷ []) ≡ incomings exts ++ incomings (ext ∷ [])
  incomings-add [] ext = refl
  incomings-add (e ∷ exts) ext = elim (Option-cases e.incoming) [
    | inl nothing ↦ rw nothing (incomings-add exts ext)
    | inr (f, set) ↦ rw set (ap (◌∷◌ f) (incomings-add exts ext))
  ]

  outgoings-add :
      (exts : List Ext) (ext : Ext)
      → outgoings (exts ++ ext ∷ []) ≡ outgoings exts ++ outgoings (ext ∷ [])
  outgoings-add [] ext = refl
  outgoings-add (e ∷ exts) ext = elim (Option-cases e.outgoing) [
    | inl nothing ↦ rw nothing (outgoings-add exts ext)
    | inr (f, set) ↦ rw set (ap (◌∷◌ f) (outgoings-add exts ext))
  ]

  -- After `cometd_ext_add`, a message that comes in goes through the functions for incoming messages of
  -- the extensions that were there, in the order of the list and where one is set, and then through that
  -- of the extension that was added, if it has one; each is given the message as the one before leaves it.
  -- A message that goes out goes through the functions for outgoing messages likewise.
  pub ext_fire-ext_add :
      (exts : List Ext) (ext : Ext) (msg : env.json.Node) (w : World env.json.Node)
      → (ext_fire env (ext_add exts ext) true msg w
          ≡ chain (incomings exts ++ incomings (ext ∷ [])) msg w)
        × (ext_fire env (ext_add exts ext) false msg w
            ≡ chain (outgoings exts ++ outgoings (ext ∷ [])) msg w)
  unfolding ext_add
  ext_fire-ext_add exts ext msg w = (
    ext_fire-incoming (exts ++ ext ∷ []) msg w ∙ ap (λ fs. chain fs msg w) (incomings-add exts ext),
    ext_fire-outgoing (exts ++ ext ∷ []) msg w ∙ ap (λ fs. chain fs msg w) (outgoings-add exts ext),
  )

  -- No extension changes nothing.
  pub ext_fire-nil :
      (exts : List Ext) (incoming : Bool) (msg : env.json.Node) (w : World env.json.Node)
      → exts ≡ []
      → ext_fire env exts incoming msg w ≡ done (msg, w)
  unfolding ext_fire
  ext_fire-nil exts incoming msg w e = rw (e, ext_fire)
