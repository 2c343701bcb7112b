-- ===== src/Event/Matching.antt =====
-- Who gets a message: the subscriptions whose channel, split at "/", matches that of the message.
use mathlib.Core.List.{Memᴰ, map}
use mathlib.Core.List.Memᴰ
use c_cometd_client.Prelude.{
  ℕ, ◌≤◌, ◌≡◌, refl, sym, ap, ◌∙◌, subst, ◌≢◌, ◌↔◌, String, false, List, [], ◌∷◌, ◌++◌, All, length,
  le→ltb, done, crash, arith,
}
use c_cometd_client.Libs.Strings.{GStrings, GStringLaws, NoSlash}
use c_cometd_client.State.Types.{Subscription, Listeners}
use c_cometd_client.Channel.{channel_is_wildcard}
use c_cometd_client.Channel.Matches.{patterns}
use c_cometd_client.Channel.Patterns.{Matches, exact, single, double, mem-patterns_iff}
use c_cometd_client.Event.Table.{lookup}
use c_cometd_client.Event.{listener_get}
use c_cometd_client.Event.Getting.{matched, lookups, listener_get-lookups, mem-lookups_iff}
use c_cometd_client.Event.WellFormed.{IsWellFormed}

NoSlash-prefix :
    (pre : List String) (q p : String) (rest : List String)
    → All NoSlash (pre ++ q ∷ rest)
    → NoSlash p
    → All NoSlash (pre ++ p ∷ [])
NoSlash-prefix [] q p rest h n = (n, tt)
NoSlash-prefix (a ∷ pre) q p rest (h, hs) n = (h, NoSlash-prefix pre q p rest hs n)

-- The parts of a pattern hold no "/", as those of the channel do.
Matches-NoSlash :
    {pat parts : List String} → Matches pat parts → All NoSlash parts → All NoSlash pat
Matches-NoSlash (exact e) h = rw e h
Matches-NoSlash (single a pre q e f) h =
    rw f (NoSlash-prefix (a ∷ pre) q "*" [] (rw e at h) (omega arith))
Matches-NoSlash (double a pre q rest e f) h =
    rw f (NoSlash-prefix (a ∷ pre) q "**" rest (rw e at h) (omega arith))

module _ (g : GStrings) (laws : GStringLaws g) where
  open g use {strsplit, strjoinv}

  is_wildcard-nil : channel_is_wildcard "" ≡ crash
  unfolding channel_is_wildcard
  is_wildcard-nil = refl

  ne-nil_of_is_wildcard :
      (channel : String) → channel_is_wildcard channel ≡ done false → channel ≢ ""
  ne-nil_of_is_wildcard channel h e = ground (arith, is_wildcard-nil)

  strsplit-ne-nil : (channel : String) → channel ≢ "" → strsplit channel ≢ []
  strsplit-ne-nil channel ne e = ne (
      sym (laws.strjoinv-strsplit channel)
      ∙ ap strjoinv (e ∙ sym laws.strsplit-nil)
      ∙ laws.strjoinv-strsplit "")

  ne_singleton : (a p : String) (pre : List String) → (a ∷ (pre ++ p ∷ [])) ≢ ("" ∷ [])
  ne_singleton a p [] = cc
  ne_singleton a p (b ∷ pre) = cc

  strsplit-strjoinv_of_Matches :
      (channel : String) (pat : List String)
      → Matches pat (strsplit channel)
      → strsplit (strjoinv pat) ≡ pat
  strsplit-strjoinv_of_Matches channel pat (exact e) =
      ap (λ ps. strsplit (strjoinv ps)) e ∙ ap strsplit (laws.strjoinv-strsplit channel) ∙ sym e
  strsplit-strjoinv_of_Matches channel pat (single a pre q e f) = rw f (
      laws.strsplit-strjoinv a (pre ++ "*" ∷ []) (ne_singleton a "*" pre)
        (rw f at (Matches-NoSlash (single a pre q e f) (laws.strsplit-NoSlash channel))))
  strsplit-strjoinv_of_Matches channel pat (double a pre q rest e f) = rw f (
      laws.strsplit-strjoinv a (pre ++ "**" ∷ []) (ne_singleton a "**" pre)
        (rw f at (Matches-NoSlash (double a pre q rest e f) (laws.strsplit-NoSlash channel))))

  module _ (channel : String) (ne : channel ≢ "") (fits : length (strsplit channel) ≤ 254) where
    matched_fits : matched g channel ≡ map strjoinv (patterns (strsplit channel))
    matched_fits = rw (le→ltb 254 (length (strsplit channel)) fits)

    Matches-of_matched :
        (p : String) → Memᴰ p (matched g channel) → Matches (strsplit p) (strsplit channel)
    Matches-of_matched p m =
        let (pat, found, e) =
          Memᴰ.of_map strjoinv (patterns (strsplit channel)) (subst (Memᴰ p) matched_fits m) in
        let h = (mem-patterns_iff pat (strsplit channel) (strsplit-ne-nil channel ne)).0 found in
        subst (λ ps. Matches ps (strsplit channel))
          (sym (strsplit-strjoinv_of_Matches channel pat h) ∙ ap strsplit e) h

    matched_of_Matches :
        (p : String) → Matches (strsplit p) (strsplit channel) → Memᴰ p (matched g channel)
    matched_of_Matches p h =
        let found =
          (mem-patterns_iff (strsplit p) (strsplit channel) (strsplit-ne-nil channel ne)).1 h in
        subst (Memᴰ p) (sym matched_fits) (
          subst (λ q. Memᴰ q (map strjoinv (patterns (strsplit channel))))
            (laws.strjoinv-strsplit p) (Memᴰ.map strjoinv found))

  -- In a table that meets the invariant, a subscription gets the messages of a channel (not empty, no
  -- wildcard, at most 254 parts) exactly if it stands in the table and its own channel matches: it is
  -- the message's, or has "*" for its last part, or "**" for a rest.
  pub listener_get-Matches_iff :
      (n : ℕ) (t : Listeners) (channel : String)
      → IsWellFormed n t
      → channel_is_wildcard channel ≡ done false
      → length (strsplit channel) ≤ 254
      → (list : List Subscription) × (listener_get g t channel ≡ done list)
        × ((s : Subscription)
            → Memᴰ s list
              ↔ (Memᴰ s (lookup s.channel t) × Matches (strsplit s.channel) (strsplit channel)))
  listener_get-Matches_iff n t channel well h fits =
      (lookups t (matched g channel), listener_get-lookups g t channel h, λ s. (there s, back s))
    where
      ne : channel ≢ ""
      ne = ne-nil_of_is_wildcard channel h

      there :
          (s : Subscription)
          → Memᴰ s (lookups t (matched g channel))
          → Memᴰ s (lookup s.channel t) × Matches (strsplit s.channel) (strsplit channel)
      there s m =
          let (k, hit, held) = (mem-lookups_iff s t (matched g channel)).0 m in
          let e = sym (well k s held).0 in
          (
            subst (λ c. Memᴰ s (lookup c t)) e held,
            subst (λ c. Matches (strsplit c) (strsplit channel)) e
                (Matches-of_matched channel ne fits k hit),
          )

      back :
          (s : Subscription)
          → (Memᴰ s (lookup s.channel t) × Matches (strsplit s.channel) (strsplit channel))
          → Memᴰ s (lookups t (matched g channel))
      back s (held, m) =
          (mem-lookups_iff s t (matched g channel)).1
            (s.channel, matched_of_Matches channel ne fits s.channel m, held)
