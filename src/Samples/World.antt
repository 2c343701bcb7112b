-- ===== src/Samples/World.antt =====
-- A client whose server cannot be reached, for the witnesses.
use c_cometd_client.Prelude.{ℕ, String, none, some, [], ◌∷◌, pos, done}
use c_cometd_client.Conn.Types.{success, Conn}
use c_cometd_client.State.Types.{Listeners, Subscription, Config, foreign}
use c_cometd_client.State.{World, Env, no_curl}
use c_cometd_client.Session.{transport_long_polling, loop_gthread_new, default_config}
use c_cometd_client.Samples.Values.{Value, obj, text, field, end, value_json}
use c_cometd_client.Samples.Parts.{split_strings}

-- A generator that always gives the same text, and a parser that fails.
abbrev pub offline : Env
offline = record {
  json = value_json (λ node. some "[]") (λ body. none);
  strings = split_strings;
  perform = λ posts post. no_curl;
  callback = λ n msg w. done (success, w);
  foreign_send = λ n msg w. done (none, w);
  foreign_recv = λ n w. done (none, w);
  foreign_ext = λ n msg w. done (msg, w);
  foreign_ext_null = λ n w. done (tt, w);
  foreign_start = λ n w. done (0, w);
  foreign_stop = λ n w. done (tt, w);
  foreign_wait = λ n millis w. done (tt, w);
  foreign_destroy = λ n w. done (tt, w);
}

abbrev pub sample_conn : ℕ → Conn
sample_conn state = record {
  state = state;
  msg_id_seed = 7;
  client_id = some "c1";
  transport = some transport_long_polling;
  advice = none;
}

abbrev pub short_config : Config
short_config = record default_config {
  max_backoff = pos 3;
  backoff_increment = pos 1;
  transports = transport_long_polling ∷ [];
}

abbrev pub world : ℕ → Listeners → World Value
world state listeners = record {
  h = record {
    conn = sample_conn state;
    config = short_config;
    last_error = record { code = success; message = none };
    loop = loop_gthread_new;
    inbox = [];
    subscriptions = listeners;
    sys_s = record { handshake = none; connect = none };
    exts = [];
  };
  posts = [];
  sleeps = [];
  printed = [];
  allocated = 1;
  token = none;
}

abbrev pub chat : Subscription
chat = record { address = 0; channel = "/chat/*"; callback = foreign 5 }

abbrev pub listeners : Listeners
listeners = ("/chat/*", chat ∷ []) ∷ []

abbrev pub on_channel : String → Value
on_channel channel = obj (field "channel" (text channel) end)
