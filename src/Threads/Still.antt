-- ===== src/Threads/Still.antt =====
-- A receive leaves the state of the connection, the extensions and the subscriptions as they are.
use c_cometd_client.Prelude.{
  ℕ, ℤ, ◌≡◌, ◌∙◌, refl, ap, sym, Cmd, Keeps, IsPreorder, keeps_rules, Keeps-bind, Keeps-pure,
  Keeps-reads, done-injective,
}
use c_cometd_client.Conn.Types.{Conn}
use c_cometd_client.State.Keeping.{on_conn-Keeps}
use c_cometd_client.State.{World, Env, on_conn}
use c_cometd_client.Msg.{next_id, msg_connect_new, msg_bad_connect_new, msg_extract_connect}
use c_cometd_client.Receiving.Keeping.{KeptByReceive, loop_wait-Keeps, recv-Keeps, push_inbox-Keeps}
use c_cometd_client.Threads.{receive_connect}

record SameConn (c c' : Conn) : Type 0 where
  state : c'.state ≡ c.state

-- The state, the extensions and the subscriptions are the same before and after.
pub record Same {Node : Type 0} (w w' : World Node) : Type 0 where
  pub state : w'.h.conn.state ≡ w.h.conn.state
  pub exts : w'.h.exts ≡ w.h.exts
  pub subscriptions : w'.h.subscriptions ≡ w.h.subscriptions

instance SameConn-IsPreorder : IsPreorder SameConn
SameConn-IsPreorder = record {
  same = λ c. record { state = refl };
  steps = λ a b c h k. record { state = k.state ∙ h.state };
}

instance pub Same-IsPreorder : {Node : Type 0} → IsPreorder (Same {Node = Node})
Same-IsPreorder = record {
  same = λ c. record { state = refl; exts = refl; subscriptions = refl };
  steps = λ a b c h k. record {
    state = k.state ∙ h.state;
    exts = k.exts ∙ h.exts;
    subscriptions = k.subscriptions ∙ h.subscriptions;
  };
}

next_id-KeepsSame : Keeps SameConn next_id
unfolding next_id
next_id-KeepsSame = record {
  at = λ c c' a e. record { state = ap (λ p. p.1.state) (sym (done-injective _ _ e)) };
}

module _ (env : Env) where
  open env use {json}
  open json use {Node}

  connects-KeepsSame : Keeps SameConn (msg_connect_new json)
  unfolding msg_connect_new
  connects-KeepsSame = search (keeps_rules, next_id-KeepsSame)

  fails-KeepsSame : Keeps SameConn (msg_bad_connect_new json)
  unfolding msg_bad_connect_new
  fails-KeepsSame = search (keeps_rules, connects-KeepsSame)

  lifted : {A : Type 0} (m : Cmd Conn A) → Keeps SameConn m → Keeps Same (on_conn {Node = Node} m)
  lifted m h =
      on_conn-Keeps SameConn Same
        (λ w c e. record { state = e.state; exts = refl; subscriptions = refl }) m h

  module _ (waits : (n : ℕ) (millis : ℤ) → Keeps Same (env.foreign_wait n millis))
      (recvs : (n : ℕ) → Keeps Same (env.foreign_recv n)) where
    kept : KeptByReceive env Same
    kept = record {
      posted = λ w post. record { state = refl; exts = refl; subscriptions = refl };
      slept = λ w sleeps. record { state = refl; exts = refl; subscriptions = refl };
      pushed = λ w inbox. record { state = refl; exts = refl; subscriptions = refl };
      connects = lifted _ connects-KeepsSame;
      fails = lifted _ fails-KeepsSame;
      waits = waits;
      recvs = recvs;
    }

    pub receive_connect-KeepsSame : (backoff : ℤ) → Keeps Same (receive_connect env backoff)
    unfolding receive_connect
    receive_connect-KeepsSame backoff =
        Keeps-bind _ _ (loop_wait-Keeps env Same Same-IsPreorder kept backoff) (λ u.
          Keeps-bind _ _ (recv-Keeps env Same Same-IsPreorder kept) (λ payload.
            Keeps-bind _ _ (Keeps-reads (λ w. msg_extract_connect json payload)) (λ p.
              Keeps-bind _ _ (push_inbox-Keeps env Same Same-IsPreorder kept p.1)
                (λ u. Keeps-pure p.0))))
