-- ===== src/AnnotationDataset.antt =====
-- domain/annotation_dataset.py: the folds of the label dataset and the frozen evaluation split. A
-- fold is its text. `position` is the number that hashed_fold reads from the digest of the seed and
-- the group, compared by `before` with a sum of shares.
pub mod Pins
pub mod Frozen
pub mod Items
pub mod Refrozen
mod Examples
use job_searching_assistant.Prelude.{
  ℕ, ◌≡◌, Bool, true, false, Option, some, none, List, [], ◌∷◌, String, elem, ◌==◌, string_eq,
  if◌then◌else◌, Result, ok, raise, ◌>>=◌, map, filter_by, text_lt,
}
use job_searching_assistant.Prelude.Dict.{Dict, lookup, assign, assign_all}

abbrev pub train : String
train = "train"

abbrev pub validation : String
validation = "validation"

abbrev pub test : String
test = "test"

-- EVAL_FOLDS
abbrev pub is_eval : String → Bool
is_eval fold = elem fold (validation ∷ test ∷ [])

pub data InvalidSplit : Type 0 where
  bad_frozen_fold : String → InvalidSplit

-- The hash of a group, as the place it takes among the shares: whether it lies before the end of
-- the train share, and before the end of the validation share.
pub record Position : Type 0 where
  pub in_train : String → Bool
  pub before_test : String → Bool

unfoldable pub hashed_fold : Position → String → String
hashed_fold position group =
    if position.in_train group
    then train
    else if position.before_test group
    then validation
    else test

abbrev pub is_test : Option String → Bool
is_test none = false
is_test (some fold) = fold == test

-- One round of the loop that pins the groups.
abbrev pub pin_one :
    Option String → String → Dict String String → Result InvalidSplit (Dict String String)
pin_one none group pinned = ok pinned
pin_one (some fold) group pinned =
    if is_eval fold
    then ok (if is_test (lookup group pinned) then pinned else assign group fold pinned)
    else raise (bad_frozen_fold fold)

unfoldable pub pin_groups :
    Dict String String
    → List (String × String)
    → Dict String String
    → Result InvalidSplit (Dict String String)
unfolding lookup assign
pin_groups frozen [] pinned = ok pinned
pin_groups frozen ((vacancy, group) ∷ items) pinned =
    pin_one (lookup vacancy frozen) group pinned >>= pin_groups frozen items

-- `pinned.get(group) or hashed_fold(group)`; a pinned fold is never empty.
abbrev pub fold_or : Option String → String → String
fold_or none hashed = hashed
fold_or (some fold) hashed = fold

unfoldable pub folds_of : Position → Dict String String → Dict String String → Dict String String
unfolding hashed_fold lookup assign_all
folds_of position pinned group_by_vacancy =
    assign_all
      (map (λ p. (p.0, fold_or (lookup p.1 pinned) (hashed_fold position p.1))) group_by_vacancy) []

unfoldable pub assign_folds :
    Position
    → (group_by_vacancy frozen_eval : Dict String String) → Result InvalidSplit (Dict String String)
unfolding pin_groups folds_of
assign_folds position group_by_vacancy frozen_eval =
    pin_groups frozen_eval group_by_vacancy [] >>= λ pinned.
    ok (folds_of position pinned group_by_vacancy)

-- `sorted` of the items of a dictionary, whose keys differ.
abbrev pub insert_item : String × String → List (String × String) → List (String × String)
insert_item p [] = p ∷ []
insert_item p (q ∷ items) = if text_lt p.0 q.0 then p ∷ q ∷ items else q ∷ insert_item p items

abbrev pub sorted_items : List (String × String) → List (String × String)
sorted_items [] = []
sorted_items (p ∷ items) = insert_item p (sorted_items items)

unfoldable pub eval_vacancies : Dict String String → Dict String String
unfolding assign_all
eval_vacancies folds = assign_all (filter_by (λ p. is_eval p.1) (sorted_items folds)) []
