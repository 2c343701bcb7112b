-- ===== src/Channel/Matches.antt =====
-- The array loop of `channel_matches` against a direct description of the patterns.
use mathlib.Core.Path.{ap₂}
use mathlib.Core.List.{append_assoc, append-nil, map-append}
use c_cometd_client.Prelude.{
  ℕ, zero, suc, ◌+◌, ◌-◌, ◌%◌, ◌^◌, ◌≤◌, ◌<◌, ◌≡◌, refl, ap, ◌∙◌, String, Bool-cases, false, Option,
  none, some, List, [], ◌∷◌, ◌++◌, map, ltb, lt→ltb, le→ltb, ltb→le, eq→==, ne→==, if◌then◌else◌,
  length, length-append, set, replicate, done, reads, inl, inr, arith,
}
use c_cometd_client.Libs.Strings.{GStrings}
use c_cometd_client.Channel.{
  Tmp, store, until_null, join, add_double, add_single, matches_round, matches_loop,
  channel_matches,
}

-- The patterns of a channel that is split in parts, the most specific first: the channel itself, "*"
-- in place of its last part, and "**" after each proper prefix.
unfoldable pub patterns : List String → List (List String)
patterns [] = []
patterns (p ∷ []) = (p ∷ []) ∷ []
patterns (p ∷ q ∷ []) = (p ∷ q ∷ []) ∷ (p ∷ "*" ∷ []) ∷ (p ∷ "**" ∷ []) ∷ []
patterns (p ∷ q ∷ r ∷ ps) = map (◌∷◌ p) (patterns (q ∷ r ∷ ps)) ++ (p ∷ "**" ∷ []) ∷ []

-- The array after i rounds: i strings, one more cell, and NULL in the n cells behind.
abbrev cells : List String → Option String → ℕ → Tmp
cells pre c n = map some pre ++ c ∷ replicate n none

set-cells :
    (pre : List String) (c : Option String) (n : ℕ) (s : String)
    → set (cells pre c n) (length pre) (some s) ≡ cells pre (some s) n
set-cells [] c n s = refl
set-cells (p ∷ pre) c n s = ap (◌∷◌ (some p)) (set-cells pre c n s)

lt-length-cells :
    (pre : List String) (c : Option String) (n : ℕ) → length pre < length (cells pre c n)
lt-length-cells [] c n = omega arith
lt-length-cells (p ∷ pre) c n = omega (arith, lt-length-cells pre c n)

store-cells :
    (pre : List String) (c : Option String) (n i : ℕ) (s : String)
    → i ≡ length pre
    → store i s (cells pre c n) ≡ done (tt, cells pre (some s) n)
unfolding store
store-cells pre c n i s e = rw (e, lt→ltb _ _ (lt-length-cells pre c n), set-cells pre c n s)

-- The cell after the last string becomes the free one.
cells-concat :
    (pre : List String) (s : String) (n : ℕ)
    → cells pre (some s) (suc n) ≡ cells (pre ++ s ∷ []) none n
cells-concat [] s n = refl
cells-concat (p ∷ pre) s n = ap (◌∷◌ (some p)) (cells-concat pre s n)

until_null-cells : (pre : List String) (n : ℕ) → until_null (cells pre none n) ≡ done pre
unfolding until_null
until_null-cells [] n = refl
until_null-cells (p ∷ pre) n = rw (until_null-cells pre n, until_null)

module _ (g : GStrings) where
  open g use {strsplit, strjoinv}

  join-cells :
      (pre : List String) (n : ℕ)
      → join g (cells pre none n) ≡ done (strjoinv pre, cells pre none n)
  unfolding join
  join-cells pre n = rw (until_null-cells pre n, reads)

  join-cells-some :
      (pre : List String) (s : String) (n : ℕ)
      → join g (cells pre (some s) (suc n))
        ≡ done (strjoinv (pre ++ s ∷ []), cells pre (some s) (suc n))
  join-cells-some pre s n = rw (cells-concat pre s n) (join-cells (pre ++ s ∷ []) n)

  -- The last round adds the channel itself.
  round_last :
      (pre : List String) (c : Option String) (n i k : ℕ) (p : String) (channels : List String)
      → i ≡ length pre
      → k ≡ i + 1
      → k ≤ 254
      → matches_round g k i p channels (cells pre c (suc n))
        ≡ done (strjoinv (pre ++ p ∷ []) ∷ channels, cells (pre ++ p ∷ []) none n)
  unfolding matches_round add_double add_single
  round_last pre c n i k p channels e h fits =
      rw
        (
          store-cells pre c (suc n) i p e,
          le→ltb i ((k + 2 ^ 32 - 1) % 2 ^ 32) (omega arith),
          cells-concat pre p n,
          join-cells (pre ++ p ∷ []) n,
          ne→== i ((k + 2 ^ 32 - 2) % 2 ^ 32) (omega arith),
        )
        refl

  -- The round before adds "**", and "*" in its place.
  round_before_last :
      (pre : List String) (c : Option String) (n i k : ℕ) (p : String) (channels : List String)
      → i ≡ length pre
      → k ≡ i + 2
      → k ≤ 254
      → matches_round g k i p channels (cells pre c (suc (suc n)))
        ≡ done (
          strjoinv (pre ++ p ∷ "*" ∷ []) ∷ strjoinv (pre ++ p ∷ "**" ∷ []) ∷ channels,
          cells (pre ++ p ∷ []) (some "*") (suc n),
        )
  unfolding matches_round add_double add_single
  round_before_last pre c n i k p channels e h fits =
      rw
        (
          store-cells pre c (suc (suc n)) i p e,
          lt→ltb i ((k + 2 ^ 32 - 1) % 2 ^ 32) (omega arith),
          cells-concat pre p (suc n),
          store-cells (pre ++ p ∷ []) none (suc n) (i + 1) "**"
              (omega (arith, length-append pre (p ∷ []))),
          join-cells-some (pre ++ p ∷ []) "**" n,
          eq→== i ((k + 2 ^ 32 - 2) % 2 ^ 32) (omega arith),
          store-cells (pre ++ p ∷ []) (some "**") (suc n) (i + 1) "*"
              (omega (arith, length-append pre (p ∷ []))),
          join-cells-some (pre ++ p ∷ []) "*" n,
          append_assoc,
          append_assoc,
        )
        refl

  -- Each earlier round adds "**".
  round_early :
      (pre : List String) (c : Option String) (n i k : ℕ) (p : String) (channels : List String)
      → i ≡ length pre
      → i + 3 ≤ k
      → k ≤ 254
      → matches_round g k i p channels (cells pre c (suc (suc n)))
        ≡ done
            (strjoinv (pre ++ p ∷ "**" ∷ []) ∷ channels, cells (pre ++ p ∷ []) (some "**") (suc n))
  unfolding matches_round add_double add_single
  round_early pre c n i k p channels e h fits =
      rw
        (
          store-cells pre c (suc (suc n)) i p e,
          lt→ltb i ((k + 2 ^ 32 - 1) % 2 ^ 32) (omega arith),
          cells-concat pre p (suc n),
          store-cells (pre ++ p ∷ []) none (suc n) (i + 1) "**"
              (omega (arith, length-append pre (p ∷ []))),
          join-cells-some (pre ++ p ∷ []) "**" n,
          ne→== i ((k + 2 ^ 32 - 2) % 2 ^ 32) (omega arith),
          append_assoc,
        )
        refl

  ltb_room : (n : ℕ) → ltb 254 n ≡ false → n < 255
  ltb_room n h = ground arith

  next_index :
      (pre : List String) (p : String) {i : ℕ} → i ≡ length pre → i + 1 ≡ length (pre ++ p ∷ [])
  next_index pre p e = omega (arith, length-append pre (p ∷ []))

  -- Patterns behind a longer prefix.
  map-shift :
      (pre : List String) (p : String) (pats : List (List String)) (channels : List String)
      → map (λ ps. strjoinv ((pre ++ p ∷ []) ++ ps)) pats ++ channels
        ≡ map (λ ps. strjoinv (pre ++ ps)) (map (◌∷◌ p) pats) ++ channels
  map-shift pre p [] channels = refl
  map-shift pre p (ps ∷ pats) channels = ap₂ ◌∷◌ (rw append_assoc) (map-shift pre p pats channels)

  -- The loop adds the joined patterns in front of the list, and stays within the array.
  loop-patterns :
      (pre ps : List String) (c : Option String) (n i k : ℕ) (channels : List String)
      → i ≡ length pre
      → k ≡ i + length ps
      → k ≤ 254
      → length ps < n
      → (tmp : Tmp) × (matches_loop g k i ps channels (cells pre c n)
          ≡ done (map (λ pat. strjoinv (pre ++ pat)) (patterns ps) ++ channels, tmp))
  unfolding matches_loop patterns
  loop-patterns pre [] c n i k channels e h fits room = (cells pre c n, refl)
  loop-patterns pre (p ∷ []) c zero i k channels e h fits room = absurd (omega arith)
  loop-patterns pre (p ∷ []) c (suc n) i k channels e h fits room =
      (cells (pre ++ p ∷ []) none n, rw (round_last pre c n i k p channels e (omega arith) fits))
  loop-patterns pre (p ∷ q ∷ ps) c zero i k channels e h fits room = absurd (omega arith)
  loop-patterns pre (p ∷ q ∷ ps) c (suc zero) i k channels e h fits room = absurd (omega arith)
  loop-patterns pre (p ∷ q ∷ []) c (suc (suc n)) i k channels e h fits room = (
    cells ((pre ++ p ∷ []) ++ q ∷ []) none n,
    rw (
      round_before_last pre c n i k p channels e (omega arith) fits,
      round_last (pre ++ p ∷ []) (some "*") n (i + 1) k q _ (next_index pre p e) (omega arith) fits,
      append_assoc pre (p ∷ []) (q ∷ []),
    ),
  )
  loop-patterns pre (p ∷ q ∷ r ∷ ps) c (suc (suc n)) i k channels e h fits room =
      let (tmp, rest) =
        loop-patterns (pre ++ p ∷ []) (q ∷ r ∷ ps) (some "**") (suc n) (i + 1) k
          (strjoinv (pre ++ p ∷ "**" ∷ []) ∷ channels) (next_index pre p e) (omega arith) fits
          (omega arith) in
      (
        tmp,
        rw (round_early pre c n i k p channels e (omega arith) fits) (
            rest
            ∙ ap (λ cs. done (cs, tmp))
                (map-shift pre p (patterns (q ∷ r ∷ ps)) _
                  ∙ rw (map-append (λ ps. strjoinv (pre ++ ps)), append_assoc))),
      )

  -- The list that the code makes for a channel is the patterns of its parts, joined, in their order, or
  -- empty where there are more than 254 parts. The array of 256 cells is neither written nor read out
  -- of bounds: no input ends in a crash.
  pub channel_matches-patterns :
      (channel : String)
      → channel_matches g channel
        ≡ done (
            if ltb 254 (length (strsplit channel))
            then []
            else map strjoinv (patterns (strsplit channel)))
  unfolding channel_matches
  channel_matches-patterns channel = elim (Bool-cases (ltb 254 (length (strsplit channel)))) [
    | inl long ↦ rw long
    | inr short ↦
        let (tmp, e) =
          loop-patterns [] (strsplit channel) none 255 0 (length (strsplit channel)) [] refl
            (omega arith) (ltb→le _ _ short) (ltb_room _ short) in
        rw (short, e, append-nil)
  ]
