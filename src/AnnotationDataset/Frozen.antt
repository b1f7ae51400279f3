-- ===== src/AnnotationDataset/Frozen.antt =====
-- domain/annotation_dataset.py: a group is in one fold, and a frozen evaluation split never comes
-- back into training.
use job_searching_assistant.Prelude.{
  ◌≡◌, refl, sym, ap, ◌∙◌, subst, true, Option, some, none, List, [], ◌∷◌, String, ◌==◌, string_eq,
  if◌then◌else◌, ok, inl, inr, Bool-cases, All, bind-ok, ok-injective, some-injective,
}
use job_searching_assistant.Prelude.Dict.{
  Dict, IsDict, lookup, lookup-assign_all, lookup-map_values, lookup-AllItems, IsDict-map_values,
  option_map, or_else-none,
}
use job_searching_assistant.AnnotationDataset.{
  test, is_eval, Position, hashed_fold, fold_or, folds_of, pin_groups, assign_folds,
}
use job_searching_assistant.AnnotationDataset.Pins.{
  next_pin, pin_of, pin_groups-pin_of, pin_groups-evals, pin_of-stays, IsEvalFold, IsPinnedTo,
}

module _ (position : Position) where
  abbrev pub group_fold : Dict String String → String → String
  group_fold pinned group = fold_or (lookup group pinned) (hashed_fold position group)

  pub lookup-folds_of :
      (pinned groups : Dict String String) (v : String)
      → IsDict groups
      → lookup v (folds_of position pinned groups)
        ≡ option_map (group_fold pinned) (lookup v groups)
  unfolding folds_of lookup
  lookup-folds_of pinned groups v h =
      lookup-assign_all v _ [] (IsDict-map_values (group_fold pinned) groups h)
      ∙ or_else-none _
      ∙ lookup-map_values (group_fold pinned) v groups

first-IsPinnedTo :
    (fold : String) (pin : Option String) → IsPinnedTo fold (next_pin (some fold) pin)
first-IsPinnedTo fold none = (fold, refl, inl refl)
first-IsPinnedTo fold (some x) = elim (Bool-cases (x == test)) [
  | inl stays ↦ (x, rw stays refl, inr ((string_eq.agrees x test).0 stays))
  | inr moves ↦ (fold, rw moves refl, inl refl)
]

-- The pin after the round of a vacancy that asks for a fold.
asked-pin :
    (frozen : Dict String String) (g fold w group : String) (pin : Option String)
    → group ≡ g
    → lookup w frozen ≡ some fold
    → next_pin (some fold) pin ≡ (if group == g then next_pin (lookup w frozen) pin else pin)
asked-pin frozen g fold w group pin e h =
    let same : (group == g) ≡ true = (string_eq.agrees group g).1 e in rw (same, h) refl

-- A vacancy of the items asks for its fold, and gets it or the test fold.
pub pin_of-asked :
    (frozen : Dict String String) (g fold v : String) (items : List (String × String))
    (pin : Option String)
    → is_eval fold ≡ true
    → All (λ p. IsEvalFold (lookup p.0 frozen)) items
    → lookup v frozen ≡ some fold
    → lookup v items ≡ some g
    → IsPinnedTo fold (pin_of frozen g items pin)
unfolding pin_of lookup
pin_of-asked frozen g fold v [] pin h a asks found = cc
pin_of-asked frozen g fold v ((w, group) ∷ items) pin h a asks found = elim (Bool-cases (w == v)) [
  | inr other ↦ pin_of-asked frozen g fold v items _ h a.1 asks (rw other at found)
  | inl same ↦ pin_of-stays frozen g fold items _ h a.1 (
      subst (IsPinnedTo fold)
        (asked-pin frozen g fold w group pin (some-injective (rw same at found))
          (subst (λ u. lookup u frozen ≡ some fold) (sym ((string_eq.agrees w v).0 same)) asks))
        (first-IsPinnedTo fold pin))
]

module _ (position : Position) (groups frozen folds : Dict String String) (is_dict : IsDict groups)
    (assigned : assign_folds position groups frozen ≡ ok folds) where
  -- If the folds of some vacancies are assigned with a frozen split, then every two vacancies of
  -- one group have the same fold.
  assign_folds-same_group :
      (v w group : String)
      → lookup v groups ≡ some group
      → lookup w groups ≡ some group
      → lookup v folds ≡ lookup w folds
  unfolding assign_folds
  assign_folds-same_group v w group hv hw =
      let (pinned, p, r) = bind-ok (pin_groups frozen groups []) _ folds assigned in
      let e = ok-injective r in
      rw (← e) (
        lookup-folds_of position pinned groups v is_dict
        ∙ ap (option_map _) (hv ∙ sym hw)
        ∙ sym (lookup-folds_of position pinned groups w is_dict))

  frozen-is_eval :
      (v group fold : String)
      → lookup v groups ≡ some group
      → lookup v frozen ≡ some fold
      → is_eval fold ≡ true
  unfolding assign_folds
  frozen-is_eval v group fold hv asks =
      let (pinned, p, _) = bind-ok (pin_groups frozen groups []) _ folds assigned in
      let evals = pin_groups-evals frozen groups [] pinned p in
      let here : IsEvalFold (lookup v frozen) =
        lookup-AllItems (λ k _. IsEvalFold (lookup k frozen)) v group groups evals hv in
      subst IsEvalFold asks here

  -- If the folds of some vacancies are assigned with a frozen split, and a vacancy is frozen in a
  -- fold, then that is an evaluation fold, and every vacancy of its group gets that fold or the
  -- test fold: none of them is in the train fold.
  pub assign_folds-frozen :
      (v w group fold : String)
      → lookup v groups ≡ some group
      → lookup w groups ≡ some group
      → lookup v frozen ≡ some fold
      → (is_eval fold ≡ true) × IsPinnedTo fold (lookup w folds)
  unfolding assign_folds lookup
  assign_folds-frozen v w group fold hv hw asks =
      let (pinned, p, r) = bind-ok (pin_groups frozen groups []) _ folds assigned in
      let e = ok-injective r in
      let good = frozen-is_eval v group fold hv asks in
      let (x, pin, which) =
        pin_of-asked frozen group fold v groups none good
          (pin_groups-evals frozen groups [] pinned p) asks hv in
      let pinned_to : lookup group pinned ≡ some x =
        pin_groups-pin_of frozen group groups [] pinned p ∙ pin in
      let found : lookup w folds ≡ some x =
        subst (λ d. lookup w d ≡ some x) e
          (lookup-folds_of position pinned groups w is_dict
            ∙ ap (option_map (group_fold position pinned)) hw
            ∙ ap (λ o. some (fold_or o (hashed_fold position group))) pinned_to) in
      (good, (x, found, which))
