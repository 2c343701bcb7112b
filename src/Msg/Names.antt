-- ===== src/Msg/Names.antt =====
-- The members of a message that include/cometd/msg.h names, and the meta channels of include/cometd.h.
use c_cometd_client.Prelude.{String}

abbrev pub id_field : String
id_field = "id"

abbrev pub data_field : String
data_field = "data"

abbrev pub client_id_field : String
client_id_field = "clientId"

abbrev pub channel_field : String
channel_field = "channel"

abbrev pub version_field : String
version_field = "version"

abbrev pub min_version_field : String
min_version_field = "minimumVersion"

abbrev pub advice_field : String
advice_field = "advice"

abbrev pub subscription_field : String
subscription_field = "subscription"

abbrev pub successful_field : String
successful_field = "successful"

abbrev pub channel_meta_handshake : String
channel_meta_handshake = "/meta/handshake"

abbrev pub channel_meta_connect : String
channel_meta_connect = "/meta/connect"

abbrev pub channel_meta_subscribe : String
channel_meta_subscribe = "/meta/subscribe"

abbrev pub channel_meta_unsubscribe : String
channel_meta_unsubscribe = "/meta/unsubscribe"
