-- ===== src/Conn/Types.antt =====
-- include/cometd/error.h, include/cometd/transport.h and the data of include/cometd/conn.h. A function
-- pointer is a name for the function: the code's own functions by name, a foreign one by a number.
use c_cometd_client.Prelude.{ℕ, String, Bool, true, false, Option, ℤ}

-- `cometd_code`
pub data Code : Type 0 where
  success json_serialize json_deserialize init_loop unknown no_transport unsuccessful send : Code

abbrev pub is_success : Code → Bool
is_success success = true
is_success _ = false

-- `cometd_send_callback` and `cometd_recv_callback`
pub data SendCallback : Type 0 where
  long_polling_send : SendCallback
  foreign_send : ℕ → SendCallback

pub data RecvCallback : Type 0 where
  long_polling_recv : RecvCallback
  foreign_recv : ℕ → RecvCallback

pub record Transport : Type 0 where
  pub name : String
  pub send : SendCallback
  pub recv : RecvCallback

-- `cometd_reconn_advice`
pub data Reconnect : Type 0 where
  reconnect_none reconnect_retry reconnect_handshake : Reconnect

pub record Advice : Type 0 where
  pub reconnect : Reconnect
  pub interval : ℤ

pub record Conn : Type 0 where
  pub state : ℕ
  pub msg_id_seed : ℕ
  pub client_id : Option String
  pub transport : Option Transport
  pub advice : Option Advice
