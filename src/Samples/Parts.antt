-- ===== src/Samples/Parts.antt =====
-- Splitting at "/" and joining, as functions.
use Prim.Native.Char.{Char, code}
use Prim.Native.String
use text.Mathlib.TextEquality.{Char-path}
use text.Mathlib.TextLemmas.{nil-append, cons-append, append-ne-nil_of_right_ne-nil, cons-ne-nil}
use c_cometd_client.Prelude.{
  ◌≡◌, refl, ap, sym, ◌∙◌, ◌≢◌, String, Bool-cases, inl, inr, true, List, [], ◌∷◌, All, ◌==◌,
  if◌then◌else◌, arith, ne→==,
}
use c_cometd_client.Libs.Strings.{GStrings, GStringLaws, NoSlash}

abbrev pub slash : Char
slash = "/"

abbrev push_front : Char → List String → List String
push_front c [] = (String.◌∷◌ c String.[]) ∷ []
push_front c (p ∷ ps) = String.◌∷◌ c p ∷ ps

abbrev parts_from : String → List String
parts_from String.[] = "" ∷ []
parts_from (String.◌∷◌ c s) =
    if code c == b'/' then "" ∷ parts_from s else push_front c (parts_from s)

abbrev pub split : String → List String
split String.[] = []
split (String.◌∷◌ c s) = parts_from (String.◌∷◌ c s)

abbrev pub join_parts : List String → String
join_parts [] = ""
join_parts (p ∷ []) = p
join_parts (p ∷ q ∷ ps) = String.◌++◌ p (String.◌∷◌ slash (join_parts (q ∷ ps)))

split_example : split "/foo/bar" ≡ "" ∷ "foo" ∷ "bar" ∷ []
split_example = refl

join_example : join_parts ("" ∷ "foo" ∷ "**" ∷ []) ≡ "/foo/**"
join_example = refl

parts_from-cons : (s : String) → (p : String) × (ps : List String) × (parts_from s ≡ p ∷ ps)
parts_from-cons String.[] = ("", [], refl)
parts_from-cons (String.◌∷◌ c s) = elim (Bool-cases (code c == b'/')) [
  | inl slash ↦ ("", parts_from s, rw slash)
  | inr other ↦ let (p, ps, e) = parts_from-cons s in (String.◌∷◌ c p, ps, rw (other, e))
]

join_parts-push_front :
    (c : Char) (p : String) (ps : List String)
    → join_parts (push_front c (p ∷ ps)) ≡ String.◌∷◌ c (join_parts (p ∷ ps))
join_parts-push_front c p [] = refl
join_parts-push_front c p (q ∷ ps) = cons-append c p _

code-eq : (c : Char) → (code c == b'/') ≡ true → c ≡ slash
code-eq c h = Char-path c slash (ground arith)

join_parts-slash :
    (ps : List String) (s : String)
    → ((p : String) × (qs : List String) × (ps ≡ p ∷ qs))
    → join_parts ps ≡ s
    → join_parts ("" ∷ ps) ≡ String.◌∷◌ slash s
join_parts-slash [] s (p, qs, e) h = absurd (ground arith)
join_parts-slash (q ∷ qs) s f h = nil-append _ ∙ ap (String.◌∷◌ slash) h

join_parts-char :
    (c : Char) (ps : List String) (s : String)
    → ((p : String) × (qs : List String) × (ps ≡ p ∷ qs))
    → join_parts ps ≡ s
    → join_parts (push_front c ps) ≡ String.◌∷◌ c s
join_parts-char c [] s (p, qs, e) h = absurd (ground arith)
join_parts-char c (q ∷ qs) s f h = join_parts-push_front c q qs ∙ ap (String.◌∷◌ c) h

join_parts-parts_from : (s : String) → join_parts (parts_from s) ≡ s
join_parts-parts_from String.[] = refl
join_parts-parts_from (String.◌∷◌ c s) = elim (Bool-cases (code c == b'/')) [
  | inl hit ↦ rw hit (
      join_parts-slash _ s (parts_from-cons s) (join_parts-parts_from s)
      ∙ ap (λ d. String.◌∷◌ d s) (sym (code-eq c hit)))
  | inr other ↦ rw other (join_parts-char c _ s (parts_from-cons s) (join_parts-parts_from s))
]

join_parts-split : (s : String) → join_parts (split s) ≡ s
join_parts-split String.[] = refl
join_parts-split (String.◌∷◌ c s) = join_parts-parts_from (String.◌∷◌ c s)

push_front-NoSlash :
    (c : Char) (ps : List String) → code c ≢ b'/' → All NoSlash ps → All NoSlash (push_front c ps)
push_front-NoSlash c [] ne h = ((ne, tt), tt)
push_front-NoSlash c (p ∷ ps) ne (h, hs) = ((ne, h), hs)

parts_from-NoSlash : (s : String) → All NoSlash (parts_from s)
parts_from-NoSlash String.[] = (tt, tt)
parts_from-NoSlash (String.◌∷◌ c s) = elim (Bool-cases (code c == b'/')) [
  | inl hit ↦ rw hit (tt, parts_from-NoSlash s)
  | inr other ↦ rw other (push_front-NoSlash c _ (ground arith) (parts_from-NoSlash s))
]

split-NoSlash : (s : String) → All NoSlash (split s)
split-NoSlash String.[] = tt
split-NoSlash (String.◌∷◌ c s) = parts_from-NoSlash (String.◌∷◌ c s)

parts_from_of_NoSlash : (p : String) → NoSlash p → parts_from p ≡ p ∷ []
parts_from_of_NoSlash String.[] h = refl
parts_from_of_NoSlash (String.◌∷◌ c p) (ne, h) = rw (ne→== _ _ ne, parts_from_of_NoSlash p h)

parts_from-append :
    (p t : String) → NoSlash p → parts_from (String.◌++◌ p (String.◌∷◌ slash t)) ≡ p ∷ parts_from t
parts_from-append String.[] t h = rw nil-append
parts_from-append (String.◌∷◌ c p) t (ne, h) =
    rw (cons-append c p _, ne→== _ _ ne, parts_from-append p t h)

parts_from-join_parts :
    (p : String) (ps : List String)
    → All NoSlash (p ∷ ps)
    → parts_from (join_parts (p ∷ ps)) ≡ p ∷ ps
parts_from-join_parts p [] (h, _) = parts_from_of_NoSlash p h
parts_from-join_parts p (q ∷ ps) (h, hs) =
    parts_from-append p _ h ∙ ap (◌∷◌ p) (parts_from-join_parts q ps hs)

split-eq-parts_from : (s : String) → s ≢ "" → split s ≡ parts_from s
split-eq-parts_from String.[] ne = absurd (ne refl)
split-eq-parts_from (String.◌∷◌ c s) ne = refl

join_parts-ne-nil :
    (p : String) (ps : List String) → (p ∷ ps) ≢ ("" ∷ []) → join_parts (p ∷ ps) ≢ ""
join_parts-ne-nil p [] ne e = ne (ap (λ s. s ∷ []) e)
join_parts-ne-nil p (q ∷ ps) ne e = append-ne-nil_of_right_ne-nil p (cons-ne-nil slash _) e

abbrev pub split_strings : GStrings
split_strings = record { strsplit = split; strjoinv = join_parts }

pub split_laws : GStringLaws split_strings
split_laws = record {
  strsplit-nil = refl;
  strjoinv-strsplit = join_parts-split;
  strsplit-NoSlash = split-NoSlash;
  strsplit-strjoinv =
      λ p ps ne h. split-eq-parts_from _ (join_parts-ne-nil p ps ne) ∙ parts_from-join_parts p ps h;
}
