-- ===== src/Samples/Listening.antt =====
-- A witness on the listening loop, with a callback that always succeeds.
use c_cometd_client.Prelude.{◌+◌, ◌≡◌, refl, arith, false, [], ◌∷◌}
use c_cometd_client.Conn.{
  connected, uninitialized, disconnected, disconnecting, conn_is_state, conn_state,
}
use c_cometd_client.State.{World}
use c_cometd_client.Msg.{msg_channel}
use c_cometd_client.Event.Table.{lookup}
use c_cometd_client.Event.Getting.{listener_get-lookups}
use c_cometd_client.Channel.{channel_is_wildcard}
use c_cometd_client.Channel.Matches.{patterns}
use c_cometd_client.Receiving.{listen}
use c_cometd_client.Receiving.Listening.{Notes, HeardBy, noted, with_inbox, listen-notes}
use c_cometd_client.Samples.Values.{Value}
use c_cometd_client.Samples.World.{offline, world, listeners, chat, on_channel}

abbrev pub ignored : Value → World Value → World Value
ignored msg w = w

ignored-Notes : Notes offline 5 ignored
ignored-Notes = record {
  called = λ msg w. refl;
  inbox = λ msg w. refl;
  exts = λ msg w. refl;
  table = λ msg w. refl;
}

room-HeardBy : HeardBy offline 5 listeners (on_channel "/chat/room")
unfolding channel_is_wildcard lookup patterns msg_channel
room-HeardBy = record {
  channel = "/chat/room";
  subscription = chat;
  named = refl;
  heard = listener_get-lookups offline.strings listeners "/chat/room" refl;
  handled = refl;
}

abbrev two_messages : World Value
two_messages =
    with_inbox offline (world connected listeners)
      (on_channel "/chat/room" ∷ on_channel "/chat/room" ∷ [])

is_going_on :
    conn_is_state two_messages.h.conn (disconnected + disconnecting + uninitialized) ≡ false
unfolding conn_is_state conn_state
is_going_on = refl

listen-notes_example :
    (listen offline 1 4 two_messages
      ≡ listen offline 1 3 (noted offline ignored two_messages.h.inbox two_messages))
    × ((noted offline ignored two_messages.h.inbox two_messages).h.inbox ≡ [])
listen-notes_example =
    listen-notes offline 1 5 ignored ignored-Notes 3 two_messages (omega arith) refl is_going_on
      (room-HeardBy, (room-HeardBy, tt))
