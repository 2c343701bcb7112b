-- ===== src/Libs/Strings.antt =====
-- g_strsplit and g_strjoinv with the delimiter "/", as channel.c uses them.
use c_cometd_client.Prelude.{String, ◌≡◌, ◌≢◌, List, [], ◌∷◌, All}
use Prim.Native.Char.{code}

-- No character is the delimiter.
abbrev pub NoSlash : String → Type 0
NoSlash String.[] = Unit
NoSlash (String.◌∷◌ c s) = (code c ≢ b'/') × NoSlash s

pub record GStrings : Type 0 where
  -- g_strsplit(s, "/", 0)
  pub strsplit : String → List String
  -- g_strjoinv("/", parts)
  pub strjoinv : List String → String

-- What the documentation says of the two: splitting the empty string gives no part, the parts hold
-- no delimiter, and joining is the inverse of splitting.
module _ (g : GStrings) where
  open g use {strsplit, strjoinv}

  pub record GStringLaws : Type 0 where
    pub strsplit-nil : strsplit "" ≡ []
    pub strjoinv-strsplit : (s : String) → strjoinv (strsplit s) ≡ s
    pub strsplit-NoSlash : (s : String) → All NoSlash (strsplit s)
    pub strsplit-strjoinv :
        (p : String) (ps : List String)
        → (p ∷ ps) ≢ ("" ∷ [])
        → All NoSlash (p ∷ ps)
        → strsplit (strjoinv (p ∷ ps)) ≡ p ∷ ps
