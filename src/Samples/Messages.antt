-- ===== src/Samples/Messages.antt =====
-- Witnesses on messages, the negotiation, the backoff and the extensions.
use c_cometd_client.Prelude.{
  false, ◌≡◌, ◌↔◌, ◌⊎◌, refl, String, true, Option, none, some, List, [], ◌∷◌, All, pos, done,
  crash,
}
use c_cometd_client.Libs.Json.{JsonGlib, JsonLaws}
use c_cometd_client.Conn.Types.{Advice, reconnect_retry, Transport, long_polling_recv, foreign_send}
use c_cometd_client.Conn.{connected}
use c_cometd_client.State.Types.{Ext, logger_incoming, logger_outgoing, foreign_func}
use c_cometd_client.Msg.{holds_object, msg_advice, msg_set_advice, msg_channel, msg_extract_connect}
use c_cometd_client.Msg.Advising.{LacksReconnect, msg_advice-msg_set_advice, msg_advice-crash_iff}
use c_cometd_client.Msg.Extracting.{Extracted, msg_extract_connect-Extracted}
use c_cometd_client.Transport.{transport_negotiate, find_transport}
use c_cometd_client.Transport.Negotiation.{IsChosen, names, transport_negotiate-last}
use c_cometd_client.Ext.{ext_add, ext_fire}
use c_cometd_client.Ext.Firing.{chain, ext_fire-ext_add}
use c_cometd_client.Session.{transport_long_polling}
use c_cometd_client.Samples.Values.{Value, obj, number, arr, field, end, cons, nil, value_laws}
use c_cometd_client.Samples.World.{offline, world, on_channel}

abbrev values : JsonGlib
values = offline.json

abbrev laws_hold : JsonLaws values
laws_hold = value_laws (λ node. some "[]") (λ body. none)

abbrev retry : Advice
retry = record { reconnect = reconnect_retry; interval = pos 50 }

holds : holds_object values (on_channel "/chat/room") ≡ true
unfolding holds_object
holds = refl

msg_advice-msg_set_advice_example :
    msg_advice values (msg_set_advice values (on_channel "/chat/room") (some retry))
    ≡ done (some retry)
msg_advice-msg_set_advice_example =
    msg_advice-msg_set_advice values laws_hold (on_channel "/chat/room") retry holds

-- Advice with an interval and nothing else.
abbrev bad_advice : Value
bad_advice = obj (field "advice" (obj (field "interval" (number (pos 50)) end)) end)

msg_advice-crash_iff_example :
    (msg_advice values bad_advice ≡ crash) ↔ LacksReconnect values laws_hold bad_advice
msg_advice-crash_iff_example = msg_advice-crash_iff values laws_hold bad_advice

-- A chat message, a connect message, and another chat message.
abbrev payload : Value
payload = arr (
    cons (on_channel "/chat/room")
      (cons (on_channel "/meta/connect") (cons (on_channel "/chat/hall") nil)))

channel_of : (c : String) → msg_channel values (some (on_channel c)) ≡ some c
unfolding msg_channel holds_object
channel_of c = refl

msg_extract_connect-Extracted_example :
    (r : Option Value × Value) × (msg_extract_connect values payload ≡ done r)
    × Extracted values payload r
msg_extract_connect-Extracted_example = msg_extract_connect-Extracted values payload (
  ("/chat/room", channel_of "/chat/room"),
  (("/meta/connect", channel_of "/meta/connect"), (("/chat/hall", channel_of "/chat/hall"), tt)),
)

-- A second transport.
abbrev web_socket : Transport
web_socket = record { name = "websocket"; send = foreign_send 1; recv = long_polling_recv }

abbrev registry : List Transport
registry = web_socket ∷ transport_long_polling ∷ []

transport_negotiate-last_example :
    (result : Option Transport) × (transport_negotiate registry
        (names ("websocket" ∷ "long-polling" ∷ "iframe" ∷ []))
      ≡ done result)
    × (((t : Transport) × (result ≡ some t)
          × IsChosen registry ("websocket" ∷ "long-polling" ∷ "iframe" ∷ []) t)
        ⊎ ((result ≡ none)
            × All
                (λ n. find_transport registry n ≡ none)
                ("websocket" ∷ "long-polling" ∷ "iframe" ∷ [])))
transport_negotiate-last_example =
    transport_negotiate-last registry ("websocket" ∷ "long-polling" ∷ "iframe" ∷ [])

abbrev logger : Ext
logger = record { address = 1; incoming = some logger_incoming; outgoing = some logger_outgoing }

abbrev other : Ext
other = record { address = 2; incoming = some (foreign_func 3); outgoing = none }

ext_fire-ext_add_example :
    (ext_fire offline
        (ext_add (logger ∷ []) other)
        true
        (on_channel "/chat/room")
        (world connected [])
      ≡ chain offline
          (logger_incoming ∷ foreign_func 3 ∷ [])
          (on_channel "/chat/room")
          (world connected []))
    × (ext_fire offline
          (ext_add (logger ∷ []) other)
          false
          (on_channel "/chat/room")
          (world connected [])
        ≡ chain offline (logger_outgoing ∷ []) (on_channel "/chat/room") (world connected []))
ext_fire-ext_add_example =
    ext_fire-ext_add offline (logger ∷ []) other (on_channel "/chat/room") (world connected [])
