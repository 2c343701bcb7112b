-- ===== src/Transport/Negotiation.antt =====
-- Which transport the negotiation chooses, and that the registry is a map from names.
use c_cometd_client.Prelude.{
  ◌≡◌, refl, ap, ◌≢◌, ◌⊎◌, inl, inr, String, Option-cases, Option, none, some, List, [], ◌∷◌, ◌++◌,
  All, str_eq, eq_iff, eq_refl, if◌then◌else◌, arith, done,
}
use c_cometd_client.Conn.Types.{Transport}
use c_cometd_client.Transport.{
  register_transport, find_transport, unregister_transport, scan_registry, scan_types,
  transport_negotiate,
}

-- The inner loop finds what `find_transport` finds, and leaves the choice where there is none.
scan_registry-find :
    (registry : List Transport) (name : String) (t : Option Transport)
    → scan_registry registry (some name) t
      ≡ done (elim (find_transport registry name) [ none ↦ t | some u ↦ some u ])
unfolding scan_registry find_transport
scan_registry-find [] name t = refl
scan_registry-find (u ∷ registry) name t = ground (arith, scan_registry-find registry name t)

-- The choice among the server's types: `t` is registered under `name`, and no later type is.
pub record IsChosen (registry : List Transport) (types : List String) (t : Transport) : Type 0 where
  pub name : String
  pub pre : List String
  pub post : List String
  pub split : types ≡ pre ++ name ∷ post
  pub registered : find_transport registry name ≡ some t
  pub last : All (λ n. find_transport registry n ≡ none) post

abbrev pub names : List String → List (Option String)
names [] = []
names (n ∷ ns) = some n ∷ names ns

IsChosen-cons :
    {registry : List Transport} {types : List String} {t : Transport} (n : String)
    → IsChosen registry types t
    → IsChosen registry (n ∷ types) t
IsChosen-cons n c = record {
  name = c.name;
  pre = n ∷ c.pre;
  post = c.post;
  split = ap (◌∷◌ n) c.split;
  registered = c.registered;
  last = c.last;
}

abbrev Result : List Transport → List String → Option Transport → Option Transport → Type 0
Result registry types start result =
    ((t : Transport) × (result ≡ some t) × IsChosen registry types t)
    ⊎ ((result ≡ start) × All (λ n. find_transport registry n ≡ none) types)

scan_types-Result :
    (registry : List Transport) (types : List String) (start : Option Transport)
    → (result : Option Transport) × (scan_types registry (names types) start ≡ done result)
      × Result registry types start result
unfolding scan_types
scan_types-Result registry [] start = (start, refl, inr (refl, tt))
scan_types-Result registry (n ∷ types) start = elim (Option-cases (find_transport registry n)) [
  | inl missing ↦
      let (result, run, r) = scan_types-Result registry types start in
      (
        result,
        rw (scan_registry-find registry n start, missing, scan_types) run,
        elim r [
          | inl (t, e, c) ↦ inl (t, e, IsChosen-cons n c)
          | inr (e, none_left) ↦ inr (e, (missing, none_left))
        ],
      )
  | inr (u, hit) ↦
      let (result, run, r) = scan_types-Result registry types (some u) in
      (
        result,
        rw (scan_registry-find registry n start, hit, scan_types) run,
        elim r [
          | inl (t, e, c) ↦ inl (t, e, IsChosen-cons n c)
          | inr (e, none_left) ↦ inl (
            u,
            e,
            record {
              name = n;
              pre = [];
              post = types;
              split = refl;
              registered = hit;
              last = none_left;
            },
          )
        ],
      )
]

-- The negotiation ends where all the server's types are texts. It chooses the registered transport of
-- the LAST type in the server's list that has one, and none exactly where no type has one.
pub transport_negotiate-last :
    (registry : List Transport) (types : List String)
    → (result : Option Transport) × (transport_negotiate registry (names types) ≡ done result)
      × (((t : Transport) × (result ≡ some t) × IsChosen registry types t)
          ⊎ ((result ≡ none) × All (λ n. find_transport registry n ≡ none) types))
unfolding transport_negotiate
transport_negotiate-last registry types = scan_types-Result registry types none

-- A transport that is registered is found under its name, one of another name is found as before, and
-- unregistering the name gives the registry as it was.
pub find-register_transport :
    (registry : List Transport) (t : Transport) (name : String)
    → (find_transport (register_transport registry t) name
        ≡ (if str_eq t.name name then some t else find_transport registry name))
      × (unregister_transport (register_transport registry t) t.name ≡ registry)
unfolding find_transport register_transport unregister_transport
find-register_transport registry t name = (refl, rw (eq_refl t.name))

-- Unregistering a name does not change what is found under any other.
pub find-unregister_transport :
    (registry : List Transport) (name other : String)
    → name ≢ other
    → find_transport (unregister_transport registry name) other ≡ find_transport registry other
unfolding find_transport unregister_transport
find-unregister_transport [] name other ne = refl
find-unregister_transport (t ∷ registry) name other ne = ground (
  arith,
  eq_iff t.name name,
  eq_iff t.name other,
  find-unregister_transport registry name other ne,
)
