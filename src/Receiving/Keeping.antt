-- ===== src/Receiving/Keeping.antt =====
-- The steps of a receive keep every relation between the client before and after that some steps on
-- the world keep.
use c_cometd_client.Prelude.{
  zero, suc, ℕ, ℤ, refl, String, Option, none, some, List, ◌∷◌, Keeps, IsPreorder, keeps_rules,
  Keeps-done, Keeps-modify,
}
use c_cometd_client.Conn.Types.{RecvCallback, long_polling_recv, foreign_recv}
use c_cometd_client.State.Types.{LoopFunc, gthread, foreign_loop}
use c_cometd_client.State.{Env, Post, Reply, no_curl, no_memory, performed, on_conn}
use c_cometd_client.Msg.{msg_connect_new, msg_bad_connect_new}
use c_cometd_client.Http.{
  Buffer, receive, http_json_post, read_response, send_data, transport_long_polling_send,
  transport_long_polling_recv,
}
use c_cometd_client.Client.{W, gthread_wait, call_wait, loop_wait}
use c_cometd_client.Receiving.{run_recv, or_bad_connect, recv, push_inbox}

-- The steps that a receive is built from.
pub record KeptByReceive (env : Env) (R : W env → W env → Type 0) : Type 0 where
  pub posted : (w : W env) (post : Post) → R w (record w { posts = post ∷ w.posts })
  pub slept : (w : W env) (sleeps : List ℤ) → R w (record w { sleeps = sleeps })
  pub pushed :
      (w : W env) (inbox : List env.json.Node) → R w (record w { h = record w.h { inbox = inbox } })
  pub connects : Keeps R (on_conn (msg_connect_new env.json))
  pub fails : Keeps R (on_conn (msg_bad_connect_new env.json))
  pub waits : (n : ℕ) (millis : ℤ) → Keeps R (env.foreign_wait n millis)
  pub recvs : (n : ℕ) → Keeps R (env.foreign_recv n)

module _ (env : Env) (R : W env → W env → Type 0) (o : IsPreorder R) where
  open env use {json}
  open json use {Node}

  module _ (posted : (w : W env) (post : Post) → R w (record w { posts = post ∷ w.posts })) where
    receive-related : (post : Post) (w : W env) (r : Reply) → R w (receive env post w r).1
    receive-related post w no_curl = o.same w
    receive-related post w no_memory = o.same w
    receive-related post w (performed ok code chunks) = posted w post

    pub http_json_post-Keeps :
        (url body : String) (timeout : ℤ) → Keeps R (http_json_post env url body timeout)
    unfolding http_json_post
    http_json_post-Keeps url body timeout =
        let post : Post = record { url = url; body = body; timeout = timeout } in
        Keeps-done _ (λ w. (receive env post w (env.perform w.posts post)).0)
          (λ w. (receive env post w (env.perform w.posts post)).1) (λ w. refl)
          (λ w. receive-related post w (env.perform w.posts post))

    read_response-Keeps : (r : Option Buffer) → Keeps R (read_response env r)
    read_response-Keeps none = search (keeps_rules, o)
    read_response-Keeps (some resp) = search (keeps_rules, o)

    send_data-Keeps : (body : Option String) → Keeps R (send_data env body)
    send_data-Keeps none = search (keeps_rules, o)
    send_data-Keeps (some body) = search (keeps_rules, o, http_json_post-Keeps, read_response-Keeps)

    pub transport_long_polling_send-Keeps :
        (node' : Node) → Keeps R (transport_long_polling_send env node')
    unfolding transport_long_polling_send
    transport_long_polling_send-Keeps msg = send_data-Keeps _

  module _ (k : KeptByReceive env R) where
    gthread_wait-Keeps : (millis : ℤ) → Keeps R (gthread_wait env millis)
    unfolding gthread_wait
    gthread_wait-Keeps (ℤ.pos zero) = search (keeps_rules, o)
    gthread_wait-Keeps (ℤ.pos (suc n)) = Keeps-modify _ (λ w. k.slept w _)
    gthread_wait-Keeps (ℤ.negsuc n) = search (keeps_rules, o)

    call_wait-Keeps : (f : LoopFunc) (millis : ℤ) → Keeps R (call_wait env f millis)
    call_wait-Keeps gthread millis = gthread_wait-Keeps millis
    call_wait-Keeps (foreign_loop n) millis = k.waits n millis

    pub loop_wait-Keeps : (millis : ℤ) → Keeps R (loop_wait env millis)
    unfolding loop_wait
    loop_wait-Keeps millis = search (keeps_rules, o, call_wait-Keeps)

    transport_long_polling_recv-Keeps : Keeps R (transport_long_polling_recv env)
    unfolding transport_long_polling_recv
    transport_long_polling_recv-Keeps =
        search (keeps_rules, o, k.connects, transport_long_polling_send-Keeps k.posted)

    run_recv-Keeps : (r : RecvCallback) → Keeps R (run_recv env r)
    unfolding run_recv
    run_recv-Keeps long_polling_recv = transport_long_polling_recv-Keeps
    run_recv-Keeps (foreign_recv n) = k.recvs n

    or_bad_connect-Keeps : (payload : Option Node) → Keeps R (or_bad_connect env payload)
    or_bad_connect-Keeps none = search (keeps_rules, o, k.fails)
    or_bad_connect-Keeps (some payload) = search (keeps_rules, o)

    pub recv-Keeps : Keeps R (recv env)
    unfolding recv
    recv-Keeps = search (keeps_rules, o, run_recv-Keeps, or_bad_connect-Keeps)

    pub push_inbox-Keeps : (payload : Node) → Keeps R (push_inbox env payload)
    push_inbox-Keeps payload = Keeps-modify _ (λ w. k.pushed w _)
