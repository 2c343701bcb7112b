-- ===== src/Calls/Sound.antt =====
-- What no step of src/cometd.c, src/conn.c, src/event.c and src/http.c undoes, and the steps that the
-- operations are built from.
use mathlib.Core.List.{append_assoc}
use c_cometd_client.Prelude.{
  ℕ, ◌≤◌, ◌≡◌, ◌≢◌, refl, ap, sym, subst, ◌∙◌, arith, none, List, [], ◌++◌, IsPreorder,
}
use c_cometd_client.Conn.Types.{Conn}
use c_cometd_client.Conn.{
  uninitialized, disconnected, handshake_success, connected, disconnecting, unconnected,
}
use c_cometd_client.State.{World, Post, put_conn}
use c_cometd_client.Event.WellFormed.{IsWellFormed}

-- The states of include/cometd/conn.h.
pub data IsState : ℕ → Type 0 where
  is_uninitialized : IsState uninitialized
  is_disconnected : IsState disconnected
  is_handshake_success : IsState handshake_success
  is_connected : IsState connected
  is_disconnecting : IsState disconnecting
  is_unconnected : IsState unconnected

-- Between two connections, the first before the second: the state stays one of the six, the message
-- ids do not go back, and a transport or a client id that was set stays set.
pub record ConnSound (c c' : Conn) : Type 0 where
  pub state : IsState c.state → IsState c'.state
  pub ids : c.msg_id_seed ≤ c'.msg_id_seed
  pub transport : c.transport ≢ none → c'.transport ≢ none
  pub client_id : c.client_id ≢ none → c'.client_id ≢ none

-- The same of two worlds; the table of subscriptions stays well-formed, and no request is forgotten.
pub record Sound {Node : Type 0} (w w' : World Node) : Type 0 where
  pub conn : ConnSound w.h.conn w'.h.conn
  pub table :
      IsWellFormed w.allocated w.h.subscriptions → IsWellFormed w'.allocated w'.h.subscriptions
  pub posted : (new : List Post) × (w'.posts ≡ new ++ w.posts)

le_trans : (a b c : ℕ) → a ≤ b → b ≤ c → a ≤ c
le_trans a b c h k = omega arith

instance pub ConnSound-IsPreorder : IsPreorder ConnSound
ConnSound-IsPreorder = record {
  same = λ c. record { state = λ h. h; ids = omega arith; transport = λ h. h; client_id = λ h. h };
  steps = λ a b c h k. record {
    state = λ s. k.state (h.state s);
    ids = le_trans _ _ _ h.ids k.ids;
    transport = λ t. k.transport (h.transport t);
    client_id = λ i. k.client_id (h.client_id i);
  };
}

module _ {Node : Type 0} where
  instance pub Sound-IsPreorder : IsPreorder (Sound {Node = Node})
  Sound-IsPreorder = record {
    same = λ w. record {
      conn = ConnSound-IsPreorder.same w.h.conn;
      table = λ h. h;
      posted = ([], refl);
    };
    steps = λ u v w h k.
        let (xs, e) = h.posted in
        let (ys, d) = k.posted in
        record {
          conn = ConnSound-IsPreorder.steps _ _ _ h.conn k.conn;
          table = λ t. k.table (h.table t);
          posted = (ys ++ xs, d ∙ ap (◌++◌ ys) e ∙ sym (append_assoc ys xs u.posts));
        };
  }

  -- A step on the connection alone.
  pub put_conn-Sound : (w : World Node) (c : Conn) → ConnSound w.h.conn c → Sound w (put_conn w c)
  put_conn-Sound w c h = record { conn = h; table = λ t. t; posted = ([], refl) }

  -- A step that touches neither the connection nor the table nor the requests.
  pub unmoved :
      (w w' : World Node)
      → w.h.conn ≡ w'.h.conn
      → w.h.subscriptions ≡ w'.h.subscriptions
      → w.allocated ≡ w'.allocated
      → w'.posts ≡ w.posts
      → Sound w w'
  unmoved w w' c t a p = record {
    conn = subst (ConnSound w.h.conn) c (ConnSound-IsPreorder.same w.h.conn);
    table = λ h.
        subst (λ n. IsWellFormed n w'.h.subscriptions) a (subst (IsWellFormed w.allocated) t h);
    posted = ([], p);
  }
