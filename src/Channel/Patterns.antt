-- ===== src/Channel/Patterns.antt =====
-- Which patterns a channel matches, as a relation on the parts of the two.
use mathlib.Core.List.{Memᴰ}
use mathlib.Core.List.Memᴰ
use c_cometd_client.Prelude.{
  ◌≡◌, refl, ap, subst, ◌≢◌, ◌↔◌, String, List, [], ◌∷◌, ◌++◌, map, inl, inr,
}
use c_cometd_client.Channel.Matches.{patterns}

-- A pattern matches the parts of a channel if it is them, if it has "*" in place of the last of at
-- least two parts, or if it has "**" in place of a non-empty rest behind a non-empty prefix.
pub data Matches (pat parts : List String) : Type 0 where
  exact : pat ≡ parts → Matches pat parts
  single :
      (a : String) (pre : List String) (q : String)
      → parts ≡ a ∷ (pre ++ q ∷ [])
      → pat ≡ a ∷ (pre ++ "*" ∷ [])
      → Matches pat parts
  double :
      (a : String) (pre : List String) (q : String) (rest : List String)
      → parts ≡ a ∷ (pre ++ q ∷ rest)
      → pat ≡ a ∷ (pre ++ "**" ∷ [])
      → Matches pat parts

Memᴰ-patterns : (p : String) (ps : List String) → Memᴰ (p ∷ ps) (patterns (p ∷ ps))
unfolding patterns
Memᴰ-patterns p [] = Memᴰ.head refl
Memᴰ-patterns p (q ∷ []) = Memᴰ.head refl
Memᴰ-patterns p (q ∷ r ∷ ps) = Memᴰ.append_left _ (Memᴰ.map (◌∷◌ p) (Memᴰ-patterns q (r ∷ ps)))

Memᴰ-patterns_single :
    (a : String) (pre : List String) (q : String)
    → Memᴰ (a ∷ (pre ++ "*" ∷ [])) (patterns (a ∷ (pre ++ q ∷ [])))
unfolding patterns
Memᴰ-patterns_single a [] q = Memᴰ.tail (Memᴰ.head refl)
Memᴰ-patterns_single a (b ∷ []) q =
    Memᴰ.append_left _ (Memᴰ.map (◌∷◌ a) (Memᴰ-patterns_single b [] q))
Memᴰ-patterns_single a (b ∷ c ∷ pre) q =
    Memᴰ.append_left _ (Memᴰ.map (◌∷◌ a) (Memᴰ-patterns_single b (c ∷ pre) q))

Memᴰ-patterns_double :
    (a : String) (pre : List String) (q : String) (rest : List String)
    → Memᴰ (a ∷ (pre ++ "**" ∷ [])) (patterns (a ∷ (pre ++ q ∷ rest)))
unfolding patterns
Memᴰ-patterns_double a [] q [] = Memᴰ.tail (Memᴰ.tail (Memᴰ.head refl))
Memᴰ-patterns_double a [] q (r ∷ rest) = Memᴰ.append_right _ (Memᴰ.head refl)
Memᴰ-patterns_double a (b ∷ []) q rest =
    Memᴰ.append_left _ (Memᴰ.map (◌∷◌ a) (Memᴰ-patterns_double b [] q rest))
Memᴰ-patterns_double a (b ∷ c ∷ pre) q rest =
    Memᴰ.append_left _ (Memᴰ.map (◌∷◌ a) (Memᴰ-patterns_double b (c ∷ pre) q rest))

Matches-cons :
    (p : String) {pat parts : List String} → Matches pat parts → Matches (p ∷ pat) (p ∷ parts)
Matches-cons p (exact e) = exact (ap (◌∷◌ p) e)
Matches-cons p (single a pre q e f) = single p (a ∷ pre) q (ap (◌∷◌ p) e) (ap (◌∷◌ p) f)
Matches-cons p (double a pre q rest e f) = double p (a ∷ pre) q rest (ap (◌∷◌ p) e) (ap (◌∷◌ p) f)

Matches-of_mem :
    (parts : List String) {pat : List String} → Memᴰ pat (patterns parts) → Matches pat parts
unfolding patterns
Matches-of_mem [] m = absurd (Memᴰ.not-nil m)
Matches-of_mem (p ∷ []) m = exact (Memᴰ.eq_of_singleton m)
Matches-of_mem (p ∷ q ∷ []) (Memᴰ.head e) = exact e
Matches-of_mem (p ∷ q ∷ []) (Memᴰ.tail (Memᴰ.head e)) = single p [] q refl e
Matches-of_mem (p ∷ q ∷ []) (Memᴰ.tail (Memᴰ.tail m)) =
    double p [] q [] refl (Memᴰ.eq_of_singleton m)
Matches-of_mem (p ∷ q ∷ r ∷ ps) m =
    elim (Memᴰ.append_cases (map (◌∷◌ p) (patterns (q ∷ r ∷ ps))) m) [
      | inl early ↦
          let (tail, found, e) = Memᴰ.of_map (◌∷◌ p) (patterns (q ∷ r ∷ ps)) early in
          subst (λ pat. Matches pat (p ∷ q ∷ r ∷ ps)) e
            (Matches-cons p (Matches-of_mem (q ∷ r ∷ ps) found))
      | inr last ↦ double p [] q (r ∷ ps) refl (Memᴰ.eq_of_singleton last)
    ]

mem_of_Matches :
    {pat parts : List String} → parts ≢ [] → Matches pat parts → Memᴰ pat (patterns parts)
mem_of_Matches {parts = []} ne h = absurd (ne refl)
mem_of_Matches {parts = p ∷ ps} ne (exact e) = rw e (Memᴰ-patterns p ps)
mem_of_Matches {parts = p ∷ ps} ne (single a pre q e f) = rw (e, f) (Memᴰ-patterns_single a pre q)
mem_of_Matches {parts = p ∷ ps} ne (double a pre q rest e f) =
    rw (e, f) (Memᴰ-patterns_double a pre q rest)

-- The list of patterns holds those that match, and no other.
pub mem-patterns_iff :
    (pat parts : List String) → parts ≢ [] → Memᴰ pat (patterns parts) ↔ Matches pat parts
mem-patterns_iff pat parts ne = (Matches-of_mem parts, mem_of_Matches ne)
