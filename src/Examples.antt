-- ===== src/Examples.antt =====
-- The programs of examples/basic.c, examples/stress.c and examples/yammer.c, as commands of the thread of
-- `main`; what goes to the standard output but by the logger is left out.
pub mod Offline
pub mod Overflow
use Prim.Native.String.{String, len}
use Prim.Native.String
use c_cometd_client.Prelude.{
  ℕ, zero, suc, ◌+◌, false, Option, some, pos, ltb, if◌then◌else◌, Outcome, done, crash, Cmd, pure,
  gets, reads, modify, ◌>>=◌, ◌>>◌,
}
use c_cometd_client.State.Types.{Callback, foreign, opt_url, opt_max_backoff}
use c_cometd_client.State.{Env}
use c_cometd_client.Ext.{ext_add, ext_logger_new, ext_yammer_new}
use c_cometd_client.Client.{W}
use c_cometd_client.Session.{configure, connect, subscribe, publish}
use c_cometd_client.Receiving.{listen, gthread_run, disconnect}

-- The examples pass a handler of their own, here the application's callback 0, whatever it does.
abbrev pub handler : Callback
handler = foreign 0

module _ (env : Env) where
  open env use {json}
  open json use {Node}

  -- `cometd_ext_add` of a new logger; malloc gives the next address.
  abbrev pub with_logger : W env → W env
  with_logger w = record w {
    h = record w.h { exts = ext_add w.h.exts (ext_logger_new w.allocated) };
    allocated = suc w.allocated;
  }

  -- The calls that both examples begin with.
  unfoldable pub set_up : Cmd (W env) (Unit {0})
  set_up = do
    configure env (opt_url "http://localhost:8089/cometd")
    configure env (opt_max_backoff (pos 5000))
    modify with_logger

  module _ (fuel : ℕ) where
    unfoldable pub basic : ℕ → Cmd (W env) ℕ
    basic rounds = do
      set_up
      _ ← connect env fuel
      _ ← subscribe env fuel "/foo/bar/baz" handler
      listen env fuel rounds
      pure 0

    -- The loop of `cometd_publish`, 500000 rounds in the example.
    unfoldable pub publish_all : ℕ → Node → Cmd (W env) (Unit {0})
    publish_all zero n = pure tt
    publish_all (suc i) n = do _ ← publish env fuel "/foo/bar/baz" n; publish_all i n

    -- The part before `cometd_disconnect`; `n` is the node of the text in the example. The thread that `cometd_listen_async` starts is another
    -- one, and the calls at the end but `cometd_disconnect` are left out.
    unfoldable pub stress_publishes : ℕ → Node → Cmd (W env) (Unit {0})
    stress_publishes count n = do
      set_up
      _ ← connect env fuel
      _ ← subscribe env fuel "/foo/bar/baz" handler
      publish_all count n

    -- `rounds` bounds those that the receiving thread has left, if it was started.
    unfoldable pub stress : ℕ → ℕ → Node → Cmd (W env) ℕ
    stress rounds count n = do
      stress_publishes count n
      _ ← disconnect env (gthread_run env fuel rounds) false
      pure 0

    -- sprintf into an array of 512 bytes: what does not fit is written behind it, here a crash.
    abbrev pub sprintf : String → Outcome String
    sprintf s = if ltb (len s) 512 then done s else crash

    -- "/feeds/%s/primary" and "/feeds/%s/secondary"
    abbrev pub feed_channel : String → String → String
    feed_channel feed kind = String.◌++◌ "/feeds/" (String.◌++◌ feed kind)

    -- The extensions of examples/yammer.c: the logger is allocated first, and added last.
    unfoldable pub set_up_yammer : String → Cmd (W env) (Unit {0})
    set_up_yammer token = do
      a ← gets (λ w. w.allocated)
      yammer ← ext_yammer_new env (a + 1) (some token)
      modify (λ w. record w {
        h = record w.h { exts = ext_add (ext_add w.h.exts yammer) (ext_logger_new a) };
        allocated = a + 2;
      })

    -- With the values of TOKEN, FEED and URL in the environment.
    unfoldable pub yammer : ℕ → Option String → Option String → Option String → Cmd (W env) ℕ
    yammer rounds (some token) (some feed) (some url) = do
      configure env (opt_url url)
      set_up_yammer token
      primary ← reads (λ w. sprintf (feed_channel feed "/primary"))
      secondary ← reads (λ w. sprintf (feed_channel feed "/secondary"))
      _ ← connect env fuel
      _ ← subscribe env fuel primary handler
      _ ← subscribe env fuel secondary handler
      listen env fuel rounds
      pure 0
    yammer rounds token feed url = pure 1
