-- ===== src/Settings/Enabled.antt =====
-- `GetEnabledPlugins` of pkg/config/config.go reads back a comma-separated list.
use extend_game_telemetry_co.Prelude.{
  ◌≡◌, refl, ap, ◌++◌, false, List, [], ◌∷◌, Text, is_empty, split, trim_space, ◌==◌, arith, All,
}
use extend_game_telemetry_co.Settings.{names_of}

-- A name with no comma, not empty, and with no white space around it.
abbrev pub IsName : Text → Type 0
IsName s = (All (λ c. (c == b',') ≡ false) s) × (is_empty s ≡ false) × (trim_space s ≡ s)

-- The names with a comma between each two.
abbrev pub join : Text → List Text → Text
join name [] = name
join name (next ∷ names) = name ++ b',' ∷ join next names

split_one : (s : Text) → All (λ c. (c == b',') ≡ false) s → split b',' s ≡ s ∷ []
split_one [] h = refl
split_one (c ∷ s) h = let rest = split_one s h.1 in let here = h.0 in ground arith

split_comma :
    (s t : Text) → All (λ c. (c == b',') ≡ false) s → split b',' (s ++ b',' ∷ t) ≡ s ∷ split b',' t
split_comma [] t h = refl
split_comma (c ∷ s) t h = let rest = split_comma s t h.1 in let here = h.0 in ground arith

-- The list of enabled plugins that is written with commas is read back name by name, in order, if
-- the names are not empty, hold no comma, and have no white space around them.
pub names_of-join :
    (name : Text) (names : List Text)
    → IsName name
    → All IsName names
    → names_of (join name names) ≡ name ∷ names
names_of-join name [] h hs = rw (split_one name h.0, h.2, h.1) refl
names_of-join name (next ∷ names) h hs =
    rw (split_comma name (join next names) h.0, h.2, h.1)
      (ap (λ xs. name ∷ xs) (names_of-join next names hs.0 hs.1))
