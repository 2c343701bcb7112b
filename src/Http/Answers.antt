-- ===== src/Http/Answers.antt =====
-- A server that answers: what posting makes of the reply, in whatever chunks its body comes.
use Prim.Native.String
use package.text.Mathlib.TextLemmas.{append_assoc, append-nil}
use c_cometd_client.Prelude.{
  ◌≡◌, ◌∙◌, refl, ap, sym, ℕ, String, true, some, List, [], ◌∷◌, leb, ◌&&◌, done,
}
use c_cometd_client.State.{World, Env, Post, performed}
use c_cometd_client.Http.{
  text, write_memory, write_chunks, http_ok, http_json_post, json_str2node, json_node2str,
  http_post_msg, transport_long_polling_send,
}

-- The chunks of a body, put together.
abbrev pub concat : List String → String
concat [] = ""
concat (chunk ∷ chunks) = String.◌++◌ chunk (concat chunks)

-- The callback that curl calls for each chunk collects the whole body.
write_chunks-concat :
    (memory : String) (chunks : List String)
    → write_chunks (text memory) chunks ≡ text (String.◌++◌ memory (concat chunks))
unfolding write_chunks write_memory
write_chunks-concat memory [] = ap text (sym (append-nil memory))
write_chunks-concat memory (chunk ∷ chunks) =
    write_chunks-concat (String.◌++◌ memory chunk) chunks
    ∙ ap text (append_assoc memory chunk (concat chunks))

module _ (env : Env) where
  open env use {json, perform}
  open json use {Node, to_data, load_from_data}

  abbrev pub request : World Node → String → Post
  request w body = record {
    url = w.h.config.url;
    body = body;
    timeout = w.h.config.request_timeout;
  }

  abbrev pub answered : World Node → String → World Node
  answered w body = record w { posts = request w body ∷ w.posts }

  -- A reply with a status from 200 to 299 whose body comes in at least one chunk and, put together,
  -- parses as JSON is the payload; nothing changes but the requests, which have one more.
  pub http_post_msg-answers :
      (msg payload : Node) (body chunk : String) (chunks : List String) (code : ℕ) (w : World Node)
      → to_data (some msg) ≡ some body
      → perform w.posts (request w body) ≡ performed true code (chunk ∷ chunks)
      → (leb 200 code && leb code 299) ≡ true
      → load_from_data (concat (chunk ∷ chunks)) ≡ some payload
      → http_post_msg env msg w ≡ done (some payload, answered w body)
  unfolding http_post_msg json_node2str http_json_post json_str2node write_chunks write_memory
      http_ok
  http_post_msg-answers msg payload body chunk chunks code w printed answer ok loads =
      rw (printed, answer, ok, write_chunks-concat chunk chunks, loads) refl

  -- The same of the transport's own post, where nothing is noted as an error either.
  pub transport_long_polling_send-answers :
      (msg payload : Node) (body chunk : String) (chunks : List String) (code : ℕ) (w : World Node)
      → to_data (some msg) ≡ some body
      → perform w.posts (request w body) ≡ performed true code (chunk ∷ chunks)
      → (leb 200 code && leb code 299) ≡ true
      → load_from_data (concat (chunk ∷ chunks)) ≡ some payload
      → transport_long_polling_send env msg w ≡ done (some payload, answered w body)
  unfolding transport_long_polling_send json_node2str http_json_post json_str2node write_chunks
      write_memory http_ok
  transport_long_polling_send-answers msg payload body chunk chunks code w printed answer ok loads =
      rw (printed, answer, ok, write_chunks-concat chunk chunks, loads) refl
