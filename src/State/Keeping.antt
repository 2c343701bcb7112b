-- ===== src/State/Keeping.antt =====
-- A command on the connection keeps, as one on the world, what it keeps of the connection.
use c_cometd_client.Prelude.{
  ◌≡◌, refl, ap, subst, arith, Outcome, done, crash, starved, Cmd, Keeps, done-injective,
}
use c_cometd_client.Conn.Types.{Conn}
use c_cometd_client.State.{World, put_conn, lift_conn, on_conn}

module _ {Node : Type 0} (C : Conn → Conn → Type 0) (R : World Node → World Node → Type 0)
    (put : (w : World Node) (c : Conn) → C w.h.conn c → R w (put_conn w c)) where
  on_conn-related :
      {A : Type 0} (w w' : World Node) (a : A) (p : Outcome (A × Conn))
      → ((c : Conn) (b : A) → p ≡ done (b, c) → C w.h.conn c)
      → lift_conn w p ≡ done (a, w')
      → R w w'
  on_conn-related w w' a (done (b, c)) h e =
      subst (R w) (ap (λ p. p.1) (done-injective _ _ e)) (put w c (h c b refl))
  on_conn-related w w' a crash h e = absurd (ground arith)
  on_conn-related w w' a starved h e = absurd (ground arith)

  pub on_conn-Keeps : {A : Type 0} (m : Cmd Conn A) → Keeps C m → Keeps R (on_conn m)
  on_conn-Keeps m h = record {
    at = λ w w' a e. on_conn-related w w' a (m w.h.conn) (h.at w.h.conn) e;
  }
