-- ===== src/Identifier.antt =====
-- The pattern of safe identifiers, which runtime-b/config.go (runtimeBIdentifierPattern) and
-- internal/challengeproof/handler.go (challengeIDPattern) share.
use ne_kiro_samples.Base.{String, ℕ, Bool, true, false, ◌&&◌, ◌||◌, ◌==◌, leb}
use Prim.Native.Char.{Char, code}
use Prim.Native.String.{[], ◌∷◌, count}

abbrev between : ℕ → ℕ → Char → Bool
between low high c = leb low (code c) && leb (code c) high

abbrev pub is_digit : Char → Bool
is_digit c = between 48 57 c

abbrev is_alphanumeric : Char → Bool
is_alphanumeric c = is_digit c || (between 65 90 c || between 97 122 c)

-- `[A-Za-z0-9._:-]`
abbrev is_identifier_character : Char → Bool
is_identifier_character c =
    is_alphanumeric c
    || ((c ∷ []) == "." || ((c ∷ []) == "_" || ((c ∷ []) == ":" || (c ∷ []) == "-")))

unfoldable pub all_characters : (Char → Bool) → String → Bool
all_characters f [] = true
all_characters f (c ∷ s) = f c && all_characters f s

-- `^[A-Za-z0-9][A-Za-z0-9._:-]{0,127}$`
unfoldable pub is_identifier : String → Bool
unfolding all_characters
is_identifier [] = false
is_identifier (c ∷ s) =
    is_alphanumeric c && (all_characters is_identifier_character s && leb (count s) 127)
