-- ===== src/Msg/Extracting.antt =====
-- `msg_extract_connect`: the last connect message of a payload is taken out, the rest keeps its order.
use native.Mathlib.Nat.{zero-add}
use c_cometd_client.Prelude.{
  ℕ, ◌+◌, ◌≡◌, refl, ap, ◌∙◌, sym, inl, inr, String, Option, none, some, List, [], ◌∷◌, ◌++◌, All,
  length, get_elem?, remove_idx, arith, Bool-cases, str_eq, eq_iff, done, subst, crash,
}
use c_cometd_client.Libs.Json.{JsonGlib}
use c_cometd_client.Msg.{
  channel_meta_connect, msg_channel, take_connect, find_connect, msg_extract_connect,
}

module _ (json : JsonGlib) where
  open json use {Node, get_elements, take_array}

  abbrev pub IsConnect : Node → Type 0
  IsConnect msg = msg_channel json (some msg) ≡ some channel_meta_connect

  -- Every message names a channel.
  abbrev pub HasChannel : Node → Type 0
  HasChannel msg = (c : String) × (msg_channel json (some msg) ≡ some c)

  -- `msg` is the last connect message of `msgs`.
  pub record IsLastConnect (msgs : List Node) (msg : Node) (rest : List Node) : Type 0 where
    pub pre : List Node
    pub post : List Node
    pub split : msgs ≡ pre ++ msg ∷ post
    pub left : rest ≡ pre ++ post
    pub connect : IsConnect msg
    pub last : All (λ m. ¬ IsConnect m) post

  data Found (msgs : List Node) (i : ℕ) (index : Option ℕ) (r : Option ℕ) : Type 0 where
    kept : All (λ m. ¬ IsConnect m) msgs → r ≡ index → Found msgs i index r
    found :
        (pre : List Node) (msg : Node) (post : List Node)
        → msgs ≡ pre ++ msg ∷ post
        → IsConnect msg
        → All (λ m. ¬ IsConnect m) post
        → r ≡ some (i + length pre)
        → Found msgs i index r

  Found-cons :
      (m : Node) {msgs : List Node} {i : ℕ} {index : Option ℕ} {r : Option ℕ}
      → ¬ IsConnect m
      → Found msgs (i + 1) index r
      → Found (m ∷ msgs) i index r
  Found-cons m ne (kept all e) = kept (ne, all) e
  Found-cons m ne (found pre msg post split connect last e) =
      found (m ∷ pre) msg post (ap (◌∷◌ m) split) connect last (e ∙ ap some (omega arith))

  Found-cons_connect :
      (m : Node) {msgs : List Node} {i : ℕ} {index : Option ℕ} {r : Option ℕ}
      → IsConnect m
      → Found msgs (i + 1) (some i) r
      → Found (m ∷ msgs) i index r
  Found-cons_connect m {msgs} h (kept all e) =
      found [] m msgs refl h all (e ∙ ap some (omega arith))
  Found-cons_connect m h (found pre msg post split connect last e) =
      found (m ∷ pre) msg post (ap (◌∷◌ m) split) connect last (e ∙ ap some (omega arith))

  find_connect-Found :
      (msgs : List Node) (i : ℕ) (index : Option ℕ)
      → All HasChannel msgs
      → (r : Option ℕ) × (find_connect json msgs i index ≡ done r) × Found msgs i index r
  unfolding find_connect
  find_connect-Found [] i index h = (index, refl, kept tt refl)
  find_connect-Found (m ∷ msgs) i index ((c, e), h) =
      elim (Bool-cases (str_eq channel_meta_connect c)) [
        | inl same ↦
            let (r, run, f) = find_connect-Found msgs (i + 1) (some i) h in
            (
              r,
              rw (e, same, find_connect) run,
              Found-cons_connect m (e ∙ ap some (sym ((eq_iff _ _).0 same))) f,
            )
        | inr other ↦
            let (r, run, f) = find_connect-Found msgs (i + 1) index h in
            (
              r,
              rw (e, other, find_connect) run,
              Found-cons m (λ connect. ground (arith, eq_iff channel_meta_connect c)) f,
            )
      ]

  get_elem?-append :
      (pre : List Node) (m : Node) (post : List Node)
      → get_elem? (pre ++ m ∷ post) (length pre) ≡ some m
  get_elem?-append [] m post = refl
  get_elem?-append (p ∷ pre) m post = get_elem?-append pre m post

  remove_idx-append :
      (pre : List Node) (m : Node) (post : List Node)
      → remove_idx (pre ++ m ∷ post) (length pre) ≡ pre ++ post
  remove_idx-append [] m post = refl
  remove_idx-append (p ∷ pre) m post = ap (◌∷◌ p) (remove_idx-append pre m post)

  -- What the extraction gives: no connect message and the payload as it was, or the last connect message
  -- and the payload without it.
  pub data Extracted (payload : Node) : Option Node × Node → Type 0 where
    absent : All (λ m. ¬ IsConnect m) (get_elements payload) → Extracted payload (none, payload)
    present :
        (msg : Node) (rest : List Node)
        → IsLastConnect (get_elements payload) msg rest
        → Extracted payload (some msg, take_array rest)

  take_connect-Extracted :
      (payload : Node) (index : Option ℕ)
      → Found (get_elements payload) 0 none index
      → Extracted payload (take_connect json payload index)
  take_connect-Extracted payload index (kept all e) = rw e (absent all)
  take_connect-Extracted payload index (found pre msg post split connect last e) =
      rw
        (
          e ∙ ap some (zero-add (length pre)),
          split,
          get_elem?-append pre msg post,
          remove_idx-append pre msg post,
        )
        (present msg (pre ++ post) (record {
          pre = pre;
          post = post;
          split = split;
          left = refl;
          connect = connect;
          last = last;
        }))

  -- Where each message of a payload names a channel, the extraction ends, and gives the last connect
  -- message with all the others in their order, or nothing where there is no connect message.
  pub msg_extract_connect-Extracted :
      (payload : Node)
      → All HasChannel (get_elements payload)
      → (r : Option Node × Node) × (msg_extract_connect json payload ≡ done r) × Extracted payload r
  unfolding msg_extract_connect
  msg_extract_connect-Extracted payload h =
      let (index, run, f) = find_connect-Found (get_elements payload) 0 none h in
      (
        take_connect json payload index,
        rw (run, msg_extract_connect),
        take_connect-Extracted payload index f,
      )

  find_connect-crash :
      (pre : List Node) (m : Node) (post : List Node) (i : ℕ) (index : Option ℕ)
      → msg_channel json (some m) ≡ none
      → All HasChannel pre
      → find_connect json (pre ++ m ∷ post) i index ≡ crash
  unfolding find_connect
  find_connect-crash [] m post i index e h = rw (e, find_connect)
  find_connect-crash (p ∷ pre) m post i index e ((c, named), h) =
      rw (named, find_connect) (find_connect-crash pre m post (i + 1) _ e h)

  -- A message that names no channel, anywhere in the payload, crashes the extraction: the null pointer
  -- goes to `strcmp`.
  pub msg_extract_connect-crash :
      (payload : Node) (pre : List Node) (m : Node) (post : List Node)
      → get_elements payload ≡ pre ++ m ∷ post
      → All HasChannel pre
      → msg_channel json (some m) ≡ none
      → msg_extract_connect json payload ≡ crash
  unfolding msg_extract_connect
  msg_extract_connect-crash payload pre m post split h e =
      rw (split, find_connect-crash pre m post 0 none e h, msg_extract_connect)

  find_connect-none :
      (msgs : List Node) (i : ℕ) (index : Option ℕ)
      → All HasChannel msgs
      → All (λ m. ¬ IsConnect m) msgs
      → find_connect json msgs i index ≡ done index
  unfolding find_connect
  find_connect-none [] i index h none_there = refl
  find_connect-none (m ∷ msgs) i index ((c, e), h) (other, others) =
      elim (Bool-cases (str_eq channel_meta_connect c)) [
        | inl same ↦ absurd (other (e ∙ ap some (sym ((eq_iff _ _).0 same))))
        | inr differs ↦
            rw (e, differs, find_connect) (find_connect-none msgs (i + 1) index h others)
      ]

  find_connect-last :
      (pre : List Node) (msg : Node) (post : List Node) (i : ℕ) (index : Option ℕ)
      → All HasChannel (pre ++ msg ∷ post)
      → IsConnect msg
      → All (λ m. ¬ IsConnect m) post
      → find_connect json (pre ++ msg ∷ post) i index ≡ done (some (i + length pre))
  unfolding find_connect
  find_connect-last [] msg post i index ((c, e), h) connect last =
      rw (connect, find_connect)
        (find_connect-none post (i + 1) (some i) h last ∙ ap (λ n. done (some n)) (omega arith))
  find_connect-last (p ∷ pre) msg post i index ((c, e), h) connect last =
      rw (e, find_connect)
        (find_connect-last pre msg post (i + 1) _ h connect last
          ∙ ap (λ n. done (some n)) (omega arith))

  -- A payload with a connect message, each of whose messages names a channel, and its parts.
  pub msg_extract_connect-last :
      (payload msg : Node) (rest : List Node)
      → All HasChannel (get_elements payload)
      → IsLastConnect (get_elements payload) msg rest
      → msg_extract_connect json payload ≡ done (some msg, take_array rest)
  unfolding msg_extract_connect
  msg_extract_connect-last payload msg rest h l =
      let elements = get_elements payload in
      let n = length l.pre in
      let run : find_connect json elements 0 none ≡ done (some n) =
        ap (λ q. find_connect json q 0 none) l.split
        ∙ find_connect-last l.pre msg l.post 0 none (subst (All HasChannel) l.split h) l.connect
            l.last
        ∙ ap (λ k. done (some k)) (zero-add n) in
      let taken : get_elem? elements n ≡ some msg =
        ap (λ q. get_elem? q n) l.split ∙ get_elem?-append l.pre msg l.post in
      let left : remove_idx elements n ≡ rest =
        ap (λ q. remove_idx q n) l.split ∙ remove_idx-append l.pre msg l.post ∙ sym l.left in
      rw (run, msg_extract_connect)
        (ap (λ m. done (m, take_array (remove_idx elements n))) taken
          ∙ ap (λ r. done (some msg, take_array r)) left)
