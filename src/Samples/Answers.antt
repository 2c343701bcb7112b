-- ===== src/Samples/Answers.antt =====
-- Witnesses on subscribing and publishing, with a server that accepts.
use mathlib.Core.List.{Memᴰ}
use c_cometd_client.Prelude.{
  if◌then◌else◌, ◌≡◌, ◌↔◌, refl, arith, true, false, some, List, [], ◌∷◌, done,
}
use c_cometd_client.Libs.Json.{JsonLaws}
use c_cometd_client.Conn.Types.{success}
use c_cometd_client.Conn.{connected}
use c_cometd_client.State.Types.{Subscription, foreign}
use c_cometd_client.State.{World, Env, performed}
use c_cometd_client.Msg.{holds_object, msg_channel, msg_is_successful}
use c_cometd_client.Channel.{channel_is_wildcard}
use c_cometd_client.Channel.Matches.{patterns}
use c_cometd_client.Channel.Patterns.{Matches}
use c_cometd_client.Event.Table.{lookup}
use c_cometd_client.Event.{listener_get, listener_count}
use c_cometd_client.Event.Getting.{listener_get-lookups}
use c_cometd_client.Event.WellFormed.{IsWellFormed}
use c_cometd_client.Http.Answers.{answered}
use c_cometd_client.Session.{subscribe, unsubscribe, publish, is_meta_channel}
use c_cometd_client.Session.Subscribing.{undelivered, removed}
use c_cometd_client.Session.Answering.{
  IsAnswered, subscribing, publication, response_code, publish-answers,
}
use c_cometd_client.Session.Unsubscribing.{withdrawal, unsubscribe-answers}
use c_cometd_client.Session.Hearing.{subscribe-hears}
use c_cometd_client.Samples.Values.{
  Value, obj, text, truth, arr, field, end, cons, nil, value_json, value_laws,
}
use c_cometd_client.Samples.Parts.{split, split_strings, split_laws}
use c_cometd_client.Samples.World.{offline, world, chat, listeners}
use c_cometd_client.Samples.Channels.{listeners-IsWellFormed}

abbrev accepted : Value
accepted = obj (field "channel" (text "/meta/subscribe") (field "successful" (truth true) end))

-- A server that answers every request with this response.
abbrev accepting : Env
accepting = record offline {
  json = value_json (λ node. some "[]") (λ body. some (arr (cons accepted nil)));
  perform = λ posts post. performed true 200 ("ok" ∷ []);
}

abbrev accepting_laws : JsonLaws accepting.json
accepting_laws = value_laws (λ node. some "[]") (λ body. some (arr (cons accepted nil)))

abbrev chatting : World Value
chatting = world connected listeners

msg-IsAnswered :
    (msg : Value)
    → IsAnswered accepting accepting_laws (undelivered accepting chatting []) msg "[]" accepted
unfolding msg_channel holds_object channel_is_wildcard lookup patterns
msg-IsAnswered msg = record {
  no_exts = refl;
  chunk = "ok";
  chunks = [];
  code = 200;
  payload = arr (cons accepted nil);
  channel = "/meta/subscribe";
  printed = refl;
  replied = refl;
  code_ok = refl;
  loaded = refl;
  alone = refl;
  is_obj = refl;
  named = refl;
  unheard = listener_get-lookups split_strings listeners "/meta/subscribe" refl;
}

is_accepted : msg_is_successful accepting.json accepted ≡ true
unfolding msg_is_successful
is_accepted = refl

news_is_plain : channel_is_wildcard "/news/sport" ≡ done false
unfolding channel_is_wildcard
news_is_plain = refl

news_is_no_meta : is_meta_channel "/news/*" ≡ false
unfolding is_meta_channel
news_is_no_meta = refl

subscribe-hears_example :
    (s : Subscription) × (w' : World Value) × (subscribe accepting 1 "/news/*" (foreign 6) chatting
      ≡ done (some s, w'))
    × (s.channel ≡ "/news/*")
    × (s.callback ≡ foreign 6)
    × IsWellFormed w'.allocated w'.h.subscriptions
    × (list : List Subscription) × (listener_get split_strings w'.h.subscriptions "/news/sport"
        ≡ done list)
    × (Memᴰ s list ↔ Matches (split "/news/*") (split "/news/sport"))
subscribe-hears_example =
    subscribe-hears accepting accepting_laws split_laws 1 "/news/*" "/news/sport" "[]" (foreign 6)
      chatting accepted listeners-IsWellFormed news_is_no_meta refl refl
      (msg-IsAnswered (subscribing accepting accepting_laws 1 "/news/*" chatting)) is_accepted
      news_is_plain (omega arith)

publish-answers_example :
    publish accepting 1 "/chat/room" (text "hello") chatting
    ≡ done (
      response_code accepting accepting_laws accepted,
      answered accepting (undelivered accepting chatting []) "[]",
    )
publish-answers_example =
    publish-answers accepting accepting_laws 1 "/chat/room" (text "hello") chatting "[]" accepted
      refl
      (msg-IsAnswered (publication accepting accepting_laws 1 "/chat/room" (text "hello") chatting))

chat_is_no_meta : is_meta_channel "/chat/*" ≡ false
unfolding is_meta_channel
chat_is_no_meta = refl

one_of_chat : listener_count listeners "/chat/*" ≡ 1
unfolding listener_count lookup
one_of_chat = refl

unsubscribe-answers_example :
    unsubscribe accepting 1 (some chat) chatting
    ≡ done (
      success,
      if msg_is_successful accepting.json accepted
          then answered accepting (undelivered accepting chatting []) "[]"
          else removed accepting chat (answered accepting (undelivered accepting chatting []) "[]"),
    )
unsubscribe-answers_example =
    unsubscribe-answers accepting accepting_laws 1 chat chatting "[]" accepted chat_is_no_meta
      one_of_chat refl (msg-IsAnswered (withdrawal accepting accepting_laws 1 "/chat/*" chatting))
