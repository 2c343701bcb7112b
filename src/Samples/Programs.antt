-- ===== src/Samples/Programs.antt =====
-- Witnesses on the programs of examples/.
use Prim.Native.String
use c_cometd_client.Prelude.{false, ◌≡◌, refl, String, some, arith, done, crash}
use c_cometd_client.Http.Failures.{IsUnreachable}
use c_cometd_client.State.{World}
use c_cometd_client.Calls.{new_world}
use c_cometd_client.Conn.Types.{Code, is_success}
use c_cometd_client.Conn.{uninitialized}
use c_cometd_client.State.Types.{thread_unset}
use c_cometd_client.Session.{connect}
use c_cometd_client.Session.Subscribing.{undelivered}
use c_cometd_client.Receiving.{gthread_run, disconnect}
use c_cometd_client.Examples.{basic, stress_publishes, stress, yammer}
use c_cometd_client.Examples.Offline.{IsIdle, set_up_client, basic-ends, stress-crash}
use c_cometd_client.Examples.Overflow.{yammer-crash}
use c_cometd_client.Samples.Values.{Value, text}
use c_cometd_client.Samples.World.{offline}

no_server : IsUnreachable offline
no_server posts post = refl

basic-ends_example :
    (code : Code) × (w : World Value) × (connect offline 5000 (set_up_client offline)
      ≡ done (code, w))
    × (is_success code ≡ false)
    × (basic offline 5000 1 new_world ≡ done (0, undelivered offline w w.posts))
    × IsIdle offline (undelivered offline w w.posts)
basic-ends_example = basic-ends offline no_server 4999 (omega arith) 0

stress-crash_example :
    (w : World Value) × (stress_publishes offline 5000 500000 (text "now") new_world ≡ done (tt, w))
    × (w.h.conn.state ≡ uninitialized)
    × (w.h.loop.thread ≡ thread_unset)
    × (disconnect offline (gthread_run offline 5000 1) false w ≡ crash)
    × (stress offline 5000 1 500000 (text "now") new_world ≡ crash)
stress-crash_example = stress-crash offline no_server 4999 (omega arith) 1 500000 (text "now")

abbrev doubled : String → String
doubled s = String.◌++◌ s s

-- 512 letters
abbrev long_feed : String
long_feed = doubled (doubled (doubled (doubled (doubled "aaaaaaaaaaaaaaaa"))))

yammer-crash_example :
    yammer offline 5000 1 (some "t") (some long_feed) (some "http://localhost:8089") new_world
    ≡ crash
yammer-crash_example =
    yammer-crash offline 5000 1 "t" long_feed "http://localhost:8089" new_world (omega arith)
