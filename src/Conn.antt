-- ===== src/Conn.antt =====
-- src/conn.c and include/cometd/conn.h: the connection record, its state bits and the server's
-- advice. A string or a pointer that may be NULL is an `Option`; freeing memory is not modelled.
pub mod Types
use c_cometd_client.Prelude.{
  ℕ, String, Bool, true, false, not, Option, none, some, ℤ, pos, bit_and, ◌==◌, Outcome, done,
  crash,
}
use Types.{Transport, Reconnect, reconnect_none, reconnect_retry, reconnect_handshake, Advice, Conn}

abbrev pub uninitialized : ℕ
uninitialized = 0x01

abbrev pub disconnected : ℕ
disconnected = 0x02

abbrev pub handshake_success : ℕ
handshake_success = 0x04

abbrev pub connected : ℕ
connected = 0x08

abbrev pub disconnecting : ℕ
disconnecting = 0x10

abbrev pub unconnected : ℕ
unconnected = 0x20

unfoldable pub conn_new : Conn
conn_new = record {
  state = uninitialized;
  msg_id_seed = 0;
  client_id = none;
  transport = none;
  advice = none;
}

unfoldable pub advice_new : Advice
advice_new = record { reconnect = reconnect_none; interval = pos 0 }

unfoldable pub conn_take_advice : Conn → Option Advice → Conn
conn_take_advice conn advice = record conn { advice = advice }

unfoldable pub advice_is_handshake : Advice → Bool
advice_is_handshake advice = elim advice.reconnect [ reconnect_handshake ↦ true | _ ↦ false ]

unfoldable pub advice_is_none : Advice → Bool
advice_is_none advice = elim advice.reconnect [ reconnect_none ↦ true | _ ↦ false ]

unfoldable pub advice_is_retry : Advice → Bool
advice_is_retry advice = elim advice.reconnect [ reconnect_retry ↦ true | _ ↦ false ]

unfoldable pub conn_set_transport : Conn → Transport → Conn
conn_set_transport conn t = record conn { transport = some t }

unfoldable pub conn_set_client_id : Conn → Option String → Outcome Conn
conn_set_client_id conn none = crash
conn_set_client_id conn (some id) = done (record conn { client_id = some id })

unfoldable pub conn_set_state : Conn → ℕ → Conn
conn_set_state conn status = record conn { state = status }

unfoldable pub conn_state : Conn → ℕ
conn_state conn = conn.state

-- The int that is returned is used as a truth value.
unfoldable pub conn_is_state : Conn → ℕ → Bool
unfolding conn_state
conn_is_state conn status = not (bit_and (conn_state conn) status == 0)
