-- ===== src/Http/Failures.antt =====
-- A server that cannot be reached: what the two ways of posting report.
use c_cometd_client.Prelude.{
  ◌≡◌, refl, String, Bool, true, false, not, Option, none, some, List, ◌∷◌, Option-cases, inl, inr,
  arith, done,
}
use c_cometd_client.Conn.Types.{json_serialize, send, is_success}
use c_cometd_client.State.{World, Env, LastError, Post, Reply, no_curl, no_memory, performed}
use c_cometd_client.Http.{
  http_ok, receive, http_json_post, json_node2str, post_data, http_post_msg,
  transport_long_polling_send, error,
}

-- The request did not go out, or no reply with a status from 200 to 299 came back.
abbrev pub fails : Reply → Bool
fails no_curl = true
fails no_memory = true
fails (performed res_ok http_code chunks) = not (http_ok res_ok http_code)

abbrev pub IsUnreachable : Env → Type 0
IsUnreachable env = (posts : List Post) (post : Post) → fails (env.perform posts post) ≡ true

module _ (env : Env) where
  open env use {json, perform}
  open json use {Node}

  receive-fails :
      (post : Post) (w : World Node) (r : Reply)
      → fails r ≡ true
      → (posts : List Post) × (receive env post w r ≡ (none, record w { posts = posts }))
  receive-fails post w no_curl h = (w.posts, refl)
  receive-fails post w no_memory h = (w.posts, refl)
  receive-fails post w (performed res_ok http_code chunks) h = (post ∷ w.posts, ground arith)

  abbrev sent : World Node → String → Post
  sent w body = record { url = w.h.config.url; body = body; timeout = w.h.config.request_timeout }

  -- The world after a failed post: other requests and, from `http_post_msg`, another last error.
  abbrev pub failed : World Node → List Post → LastError → World Node
  failed w posts e = record w { h = record w.h { last_error = e }; posts = posts }

  module _ (unreachable : IsUnreachable env) where
    post_data-fails :
        (text : Option String) (w : World Node)
        → (posts : List Post) × (e : LastError) × (post_data env text w
            ≡ done (none, failed w posts e))
          × (is_success e.code ≡ false)
    unfolding http_json_post error
    post_data-fails none w = (
      w.posts,
      record { code = json_serialize; message = some "could not serialize json" },
      refl,
      refl,
    )
    post_data-fails (some body) w =
        let request = sent w body in
        let (posts, e) =
          receive-fails request w (perform w.posts request) (unreachable w.posts request) in
        (posts, record { code = send; message = some "could not post" }, rw e, refl)

    -- Where the server cannot be reached, `http_post_msg` gives NULL and notes an error that is not
    -- success, and changes nothing else but the requests.
    pub http_post_msg-fails :
        (msg : Node) (w : World Node)
        → (posts : List Post) × (e : LastError) × (http_post_msg env msg w
            ≡ done (none, failed w posts e))
          × (is_success e.code ≡ false)
    unfolding http_post_msg
    http_post_msg-fails msg w = post_data-fails (json_node2str env (some msg)) w

    -- The long polling transport gives NULL too, but leaves the last error as it was.
    pub transport_long_polling_send-fails :
        (msg : Node) (w : World Node)
        → (posts : List Post) × (transport_long_polling_send env msg w
            ≡ done (none, record w { posts = posts }))
    unfolding transport_long_polling_send http_json_post
    transport_long_polling_send-fails msg w = elim (Option-cases (json_node2str env (some msg))) [
      | inl nothing ↦ (w.posts, rw (nothing, transport_long_polling_send))
      | inr (body, e) ↦
          let request = sent w body in
          let (posts, f) =
            receive-fails request w (perform w.posts request) (unreachable w.posts request) in
          (posts, rw (e, transport_long_polling_send, f))
    ]
