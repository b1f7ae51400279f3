-- ===== src/Prelude/Sets.antt =====
-- A Python set of texts, kept as the list that `sorted` makes of it.
use mathlib.Core.Path.{◌≡◌, refl, ◌∙◌, ap}
use mathlib.Core.Bool.{◌||◌}
use mathlib.Core.List.{List, [], ◌∷◌}
use Prim.Native.String.{String}
use native.Mathlib.Omega.{arith}
use job_searching_assistant.Prelude.Tests.{if◌then◌else◌}
use job_searching_assistant.Prelude.Equality.{◌==◌, string_eq, elem}
use job_searching_assistant.Prelude.Text.{text_lt}

abbrev pub insert_text : String → List String → List String
insert_text text [] = text ∷ []
insert_text text (t ∷ texts) =
    if text == t
    then t ∷ texts
    else if text_lt text t
    then text ∷ t ∷ texts
    else t ∷ insert_text text texts

abbrev pub set_of : List String → List String
set_of [] = []
set_of (t ∷ texts) = insert_text t (set_of texts)

pub elem-insert_text :
    (x text : String) (texts : List String)
    → elem x (insert_text text texts) ≡ (x == text || elem x texts)
elem-insert_text x text [] = refl
elem-insert_text x text (t ∷ texts) = ground (
  arith,
  elem-insert_text x text texts,
  string_eq.agrees text t,
  string_eq.agrees x text,
  string_eq.agrees x t,
)

pub elem-set_of : (x : String) (texts : List String) → elem x (set_of texts) ≡ elem x texts
elem-set_of x [] = refl
elem-set_of x (t ∷ texts) =
    elem-insert_text x t (set_of texts) ∙ ap (λ b. x == t || b) (elem-set_of x texts)
