-- ===== src/Samples/Arrivals.antt =====
-- A witness on messages from the server to the application.
use c_cometd_client.Prelude.{◌≡◌, refl, sym, subst, All, suc, ◌+◌, List, [], ◌∷◌, pos, length}
use c_cometd_client.Conn.{connected, conn_is_state, conn_state}
use c_cometd_client.State.Types.{Listeners}
use c_cometd_client.State.{World, Post}
use c_cometd_client.Msg.{msg_channel, holds_object}
use c_cometd_client.Channel.{channel_is_wildcard}
use c_cometd_client.Channel.Matches.{patterns}
use c_cometd_client.Event.Table.{lookup}
use c_cometd_client.Event.Getting.{listener_get-lookups}
use c_cometd_client.Session.Creating.{on_connect}
use c_cometd_client.Receiving.{should_recv, gthread_loop, listen}
use c_cometd_client.Receiving.Serving.{IsListening}
use c_cometd_client.Receiving.Delivering.{delivered}
use c_cometd_client.Receiving.Listening.{Notes, HeardBy, noted}
use c_cometd_client.Receiving.Arriving.{AllHeard, listen-serves}
use c_cometd_client.Samples.Values.{Value}
use c_cometd_client.Samples.Parts.{split_strings}
use c_cometd_client.Samples.World.{world, chat, on_channel}
use c_cometd_client.Samples.Listening.{ignored}
use c_cometd_client.Samples.Serving.{serving, served-others, serving-IsServing}

abbrev table : Listeners
table = ("/meta/connect", on_connect ∷ []) ∷ ("/chat/*", chat ∷ []) ∷ []

abbrev attentive : World Value
attentive = world connected table

attentive-IsListening : IsListening serving attentive
unfolding channel_is_wildcard lookup patterns
attentive-IsListening = record {
  no_exts = refl;
  waits = refl;
  polls = refl;
  handler = on_connect;
  handles = refl;
  heard = listener_get-lookups split_strings table "/meta/connect" refl;
}

ignored-Notes : Notes serving 5 ignored
ignored-Notes = record {
  called = λ msg w. refl;
  inbox = λ msg w. refl;
  exts = λ msg w. refl;
  table = λ msg w. refl;
}

news-HeardBy : HeardBy serving 5 table (on_channel "/chat/room")
unfolding channel_is_wildcard lookup patterns msg_channel holds_object
news-HeardBy = record {
  channel = "/chat/room";
  subscription = chat;
  named = refl;
  heard = listener_get-lookups split_strings table "/chat/room" refl;
  handled = refl;
}

news-AllHeard : AllHeard serving serving-IsServing 5 table
news-AllHeard posts post =
    subst (λ r. All (HeardBy serving 5 table) r) (sym (served-others posts post)) (news-HeardBy, tt)

listen-serves_example :
    (w' : World Value) × (new : List Post) × (gthread_loop serving 1 (3 + 4) 1 (pos 0) attentive
      ≡ gthread_loop serving 1 4 1 (pos 0) w')
    × (length new ≡ 3)
    × (listen serving 1 (suc (suc (length (delivered serving serving-IsServing new [])))) w'
        ≡ listen serving 1
            (suc (length (delivered serving serving-IsServing new [])))
            (noted serving ignored (delivered serving serving-IsServing new []) w'))
    × ((noted serving ignored (delivered serving serving-IsServing new []) w').h.inbox ≡ [])
unfolding should_recv conn_is_state conn_state
listen-serves_example =
    listen-serves serving serving-IsServing 1 5 2 4 1 (pos 0) ignored attentive ignored-Notes
      attentive-IsListening news-AllHeard refl refl refl
