-- ===== src/Ext/Keeping.antt =====
-- The extensions keep every relation between the client before and after that each of them keeps.
use c_cometd_client.Prelude.{
  ℕ, Bool, String, List, [], ◌∷◌, Option, none, some, Keeps, IsPreorder, keeps_rules, Keeps-bind,
}
use c_cometd_client.State.Types.{
  ExtFunc, logger_incoming, logger_outgoing, yammer_outgoing, foreign_func, Ext,
}
use c_cometd_client.State.{World, Env}
use c_cometd_client.Ext.{
  print_log, run_yammer_outgoing, ext_call, ext_call_null, call_set, call_set_null, ext_fire,
  ext_fire_null,
}

module _ (env : Env) (R : World env.json.Node → World env.json.Node → Type 0) (o : IsPreorder R)
    (prints : (kind : String) (msg : Option env.json.Node) → Keeps R (print_log env kind msg)) where
  open env use {json}
  open json use {Node}

  module _ (writes : (n : ℕ) (msg : Node) → Keeps R (env.foreign_ext n msg)) where
    ext_call-Keeps : (f : ExtFunc) (node : Node) → Keeps R (ext_call env f node)
    unfolding ext_call print_log run_yammer_outgoing
    ext_call-Keeps logger_incoming node = search (keeps_rules, o, prints)
    ext_call-Keeps logger_outgoing node = search (keeps_rules, o, prints)
    ext_call-Keeps yammer_outgoing node = search (keeps_rules, o)
    ext_call-Keeps (foreign_func n) node = writes n node

    call_set-Keeps : (f : Option ExtFunc) (node : Node) → Keeps R (call_set env f node)
    unfolding call_set
    call_set-Keeps none node = search (keeps_rules, o)
    call_set-Keeps (some f) node = ext_call-Keeps f node

    pub ext_fire-Keeps :
        (exts : List Ext) (incoming : Bool) (node : Node)
        → Keeps R (ext_fire env exts incoming node)
    unfolding ext_fire
    ext_fire-Keeps [] incoming node = search (keeps_rules, o)
    ext_fire-Keeps (e ∷ exts) incoming node =
        Keeps-bind ⦃o = o⦄ _ _ (call_set-Keeps _ _) (λ node'. ext_fire-Keeps exts incoming node')

  module _ (nulls : (n : ℕ) → Keeps R (env.foreign_ext_null n)) where
    ext_call_null-Keeps : (f : ExtFunc) → Keeps R (ext_call_null env f)
    unfolding ext_call_null print_log
    ext_call_null-Keeps logger_incoming = prints _ _
    ext_call_null-Keeps logger_outgoing = prints _ _
    ext_call_null-Keeps yammer_outgoing = search (keeps_rules, o)
    ext_call_null-Keeps (foreign_func n) = nulls n

    call_set_null-Keeps : (f : Option ExtFunc) → Keeps R (call_set_null env f)
    unfolding call_set_null
    call_set_null-Keeps none = search (keeps_rules, o)
    call_set_null-Keeps (some f) = ext_call_null-Keeps f

    pub ext_fire_null-Keeps :
        (exts : List Ext) (incoming : Bool) → Keeps R (ext_fire_null env exts incoming)
    unfolding ext_fire_null
    ext_fire_null-Keeps [] incoming = search (keeps_rules, o)
    ext_fire_null-Keeps (e ∷ exts) incoming =
        Keeps-bind ⦃o = o⦄ _ _ (call_set_null-Keeps _) (λ u. ext_fire_null-Keeps exts incoming)
