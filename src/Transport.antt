-- ===== src/Transport.antt =====
-- src/transport.c and the registry of transports in src/cometd.c. g_list_find_custom with
-- `find_transport_by_name` finds the first of that name. Each transport is a block of its own, so
-- g_list_remove takes out the one that was found.
pub mod Negotiation
use c_cometd_client.Prelude.{
  String, Option, none, some, List, [], ◌∷◌, str_eq, if◌then◌else◌, Outcome, done, crash, starved,
}
use c_cometd_client.Conn.Types.{Transport}

unfoldable pub register_transport : List Transport → Transport → List Transport
register_transport transports t = t ∷ transports

unfoldable pub find_transport : List Transport → String → Option Transport
find_transport [] name = none
find_transport (t ∷ transports) name =
    if str_eq t.name name then some t else find_transport transports name

unfoldable pub unregister_transport : List Transport → String → List Transport
unregister_transport [] name = []
unregister_transport (t ∷ transports) name =
    if str_eq t.name name then transports else t ∷ unregister_transport transports name

-- The inner loop, over the registry; a type that is NULL is read by `strcmp`.
unfoldable pub scan_registry :
    List Transport → Option String → Option Transport → Outcome (Option Transport)
scan_registry [] item transport = done transport
scan_registry (t ∷ registry) none transport = crash
scan_registry (t ∷ registry) (some item) transport =
    if str_eq t.name item then done (some t) else scan_registry registry (some item) transport

-- The outer loop, over the server's types.
unfoldable pub scan_types :
    List Transport → List (Option String) → Option Transport → Outcome (Option Transport)
scan_types registry [] transport = done transport
scan_types registry (item ∷ types) transport = elim (scan_registry registry item transport) [
  | done transport' ↦ scan_types registry types transport'
  | crash ↦ crash
  | starved ↦ starved
]

unfoldable pub transport_negotiate :
    List Transport → List (Option String) → Outcome (Option Transport)
transport_negotiate registry types = scan_types registry types none
