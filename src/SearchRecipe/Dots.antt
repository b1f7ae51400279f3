-- ===== src/SearchRecipe/Dots.antt =====
-- The methods of texts that domain/search_recipe.py uses, by the characters of a text.
use Prim.Native.Char.{code}
use Prim.Native.String.{[], ◌∷◌}
use job_searching_assistant.Prelude.{Bool, true, false, ◌&&◌, not, String, nat_beq, if◌then◌else◌}
use job_searching_assistant.SiteAccess.Text.{is_text, is_dot}

-- `s.rstrip(".")`
abbrev pub rstrip_dots : String → String
rstrip_dots [] = []
rstrip_dots (c ∷ s) =
    let rest = rstrip_dots s in if is_dot c && not (is_text rest) then [] else c ∷ rest

-- `s.startswith(prefix)`
abbrev pub starts_with : String → String → Bool
starts_with s [] = true
starts_with [] (d ∷ prefix) = false
starts_with (c ∷ s) (d ∷ prefix) = nat_beq (code c) (code d) && starts_with s prefix
