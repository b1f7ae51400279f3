-- ===== src/SiteAccess/Text.antt =====
-- The methods of Python's texts that domain/site_access.py uses, by the characters of a text.
use Prim.Native.Char.{Char, code}
use Prim.Native.String.{[], ◌∷◌}
use Prim.Native.String.{◌++◌ as str_append}
use job_searching_assistant.Prelude.{
  ℕ, suc, Bool, true, false, ◌&&◌, ◌||◌, not, String, List, nat_beq, if◌then◌else◌, nat_eq,
}

-- `str.isspace` of one character
pub record Unicode : Type 0 where
  pub is_space : Char → Bool

abbrev pub is_text : String → Bool
is_text [] = false
is_text (c ∷ s) = true

abbrev pub text_length : String → ℕ
text_length [] = 0
text_length (c ∷ s) = suc (text_length s)

abbrev pub any_char : (Char → Bool) → String → Bool
any_char p [] = false
any_char p (c ∷ s) = p c || any_char p s

module _ (unicode : Unicode) where
  abbrev pub lstrip : String → String
  lstrip [] = []
  lstrip (c ∷ s) = if unicode.is_space c then lstrip s else c ∷ s

  abbrev pub rstrip : String → String
  rstrip [] = []
  rstrip (c ∷ s) =
      let rest = rstrip s in if unicode.is_space c && not (is_text rest) then [] else c ∷ rest

  abbrev pub strip : String → String
  strip s = lstrip (rstrip s)

abbrev pub is_dot : Char → Bool
is_dot c = nat_beq (code c) b'.'

abbrev pub is_dash : Char → Bool
is_dash c = nat_beq (code c) b'-'

abbrev pub is_colon : Char → Bool
is_colon c = nat_beq (code c) b':'

-- `s.endswith(...)` of one character
abbrev pub ends_with : (Char → Bool) → String → Bool
ends_with p [] = false
ends_with p (c ∷ s) = if is_text s then ends_with p s else p c

abbrev pub ends_with_colon : String → Bool
ends_with_colon s = ends_with is_colon s

abbrev pub starts_with : (Char → Bool) → String → Bool
starts_with p [] = false
starts_with p (c ∷ s) = p c

-- `s[:-1]`
abbrev pub drop_last : String → String
drop_last [] = []
drop_last (c ∷ s) = if is_text s then c ∷ drop_last s else []

abbrev pub onto_first : Char → List String → List String
onto_first c List.[] = List.◌∷◌ (c ∷ []) List.[]
onto_first c (List.◌∷◌ label labels) = List.◌∷◌ (c ∷ label) labels

-- `s.split(".")`, which has at least one part
abbrev pub split_dots : String → List String
split_dots [] = List.◌∷◌ [] List.[]
split_dots (c ∷ s) = if is_dot c then List.◌∷◌ [] (split_dots s) else onto_first c (split_dots s)

-- `".".join(parts)`
abbrev pub join_dots : List String → String
join_dots List.[] = []
join_dots (List.◌∷◌ part List.[]) = part
join_dots (List.◌∷◌ part parts) = str_append part (str_append "." (join_dots parts))
