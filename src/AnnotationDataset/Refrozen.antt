-- ===== src/AnnotationDataset/Refrozen.antt =====
-- domain/annotation_dataset.py: freezing the evaluation split of some folds, and assigning the
-- folds again.
use job_searching_assistant.Prelude.{
  ◌≡◌, refl, sym, ap, ◌∙◌, subst, ◌⊎◌, true, false, Option, some, none, List, [], ◌∷◌, String, ◌==◌,
  string_eq, if◌then◌else◌, ok, ◌>>=◌, inl, inr, Bool-cases, All, All-imp, bind-ok, ok-injective,
  some-injective,
}
use job_searching_assistant.Prelude.Dict.{
  Dict, IsDict, lookup, assign, option_map, assign_all-IsDict, All-items, bools_differ, map_values,
}
use job_searching_assistant.AnnotationDataset.{
  test, is_eval, is_test, Position, hashed_fold, fold_or, folds_of, pin_one, pin_groups,
  assign_folds, eval_vacancies,
}
use job_searching_assistant.AnnotationDataset.Pins.{
  if_same, next_pin, pin_of, pin_groups-pin_of, IsEvalFold,
}
use job_searching_assistant.AnnotationDataset.Frozen.{lookup-folds_of, group_fold}
use job_searching_assistant.AnnotationDataset.Items.{keep_eval, lookup-eval_vacancies}

later-found :
    (v w g group : String) (items : List (String × String))
    → (group == g) ≡ false
    → lookup v ((w, group) ∷ items) ≡ some g
    → lookup v items ≡ some g
unfolding lookup
later-found v w g group items other h = elim (Bool-cases (w == v)) [
  | inl same ↦
      let e : group ≡ g = some-injective (rw same at h) in
      absurd (bools_differ (sym ((string_eq.agrees group g).1 e) ∙ other))
  | inr differs ↦ rw differs at h
]

keep_eval-IsEvalFold : (o : Option String) → IsEvalFold (keep_eval o)
keep_eval-IsEvalFold none = tt
keep_eval-IsEvalFold (some fold) = elim (Bool-cases (is_eval fold)) [
  | inl good ↦ rw good good
  | inr bad ↦ rw bad tt
]

pin_one-total :
    (fold : Option String) (group : String) (pinned : Dict String String)
    → IsEvalFold fold
    → (pinned' : Dict String String) × (pin_one fold group pinned ≡ ok pinned')
pin_one-total none group pinned h = (pinned, refl)
pin_one-total (some fold) group pinned h =
    let after : Dict String String =
      if is_test (lookup group pinned) then pinned else assign group fold pinned in
    (after, rw h refl)

-- Nothing is raised if every frozen fold is an evaluation fold.
pin_groups-total :
    (frozen : Dict String String) (items : List (String × String)) (pinned : Dict String String)
    → ((v : String) → IsEvalFold (lookup v frozen))
    → (pinned' : Dict String String) × (pin_groups frozen items pinned ≡ ok pinned')
unfolding pin_groups
pin_groups-total frozen [] pinned h = (pinned, refl)
pin_groups-total frozen ((v, group) ∷ items) pinned h =
    let (middle, e) = pin_one-total (lookup v frozen) group pinned (h v) in
    let (pinned', rest) = pin_groups-total frozen items middle h in
    (pinned', ap (λ m. m >>= pin_groups frozen items) e ∙ rest)

next_pin-same :
    (fold : String) (pin : Option String)
    → (pin ≡ none) ⊎ (pin ≡ some fold)
    → next_pin (some fold) pin ≡ some fold
next_pin-same fold pin (inl e) = rw e refl
next_pin-same fold pin (inr e) = rw e (if_same (fold == test) (some fold))

module _ (frozen : Dict String String) (fold_of : String → String) where
  -- A vacancy asks for the fold of its group, if that is an evaluation fold.
  abbrev Asks : String × String → Type 0
  Asks p = lookup p.0 frozen ≡ keep_eval (some (fold_of p.1))

  module _ (g : String) (good : is_eval (fold_of g) ≡ true) where
    asked-round :
        (v group : String) (pin : Option String)
        → Asks (v, group)
        → group ≡ g
        → (pin ≡ none) ⊎ (pin ≡ some (fold_of g))
        → next_pin (lookup v frozen) pin ≡ some (fold_of g)
    asked-round v group pin asks e h =
        let kept : keep_eval (some (fold_of g)) ≡ some (fold_of g) = rw good refl in
        ap (λ o. next_pin o pin) (asks ∙ ap (λ i. keep_eval (some (fold_of i))) e ∙ kept)
        ∙ next_pin-same (fold_of g) pin h

    pin_of-settled :
        (items : List (String × String)) (pin : Option String)
        → All Asks items
        → pin ≡ some (fold_of g)
        → pin_of frozen g items pin ≡ some (fold_of g)
    unfolding pin_of
    pin_of-settled [] pin a h = h
    pin_of-settled ((v, group) ∷ items) pin a h = elim (Bool-cases (group == g)) [
      | inl same ↦ rw same (
          pin_of-settled items _ a.1
            (asked-round v group pin a.0 ((string_eq.agrees group g).0 same) (inr h)))
      | inr other ↦ rw other (pin_of-settled items pin a.1 h)
    ]

    pin_of-reaches :
        (v : String) (items : List (String × String)) (pin : Option String)
        → All Asks items
        → lookup v items ≡ some g
        → (pin ≡ none) ⊎ (pin ≡ some (fold_of g))
        → pin_of frozen g items pin ≡ some (fold_of g)
    unfolding pin_of lookup
    pin_of-reaches v [] pin a found h = cc
    pin_of-reaches v ((w, group) ∷ items) pin a found h = elim (Bool-cases (group == g)) [
      | inl same ↦ rw same (
          pin_of-settled items _ a.1
            (asked-round w group pin a.0 ((string_eq.agrees group g).0 same) h))
      | inr other ↦
          rw other (pin_of-reaches v items pin a.1 (later-found v w g group items other found) h)
    ]

All-Asks :
    (position : Position) (pinned groups folds : Dict String String)
    → IsDict groups
    → folds_of position pinned groups ≡ folds
    → IsDict folds
    → All (Asks (eval_vacancies folds) (group_fold position pinned)) groups
All-Asks position pinned groups folds d e d' =
    All-imp (λ p. lookup p.0 groups ≡ some p.1) _ groups
      (λ p h.
        lookup-eval_vacancies p.0 folds d'
        ∙ ap keep_eval (
            subst (λ q. lookup p.0 q ≡ some (group_fold position pinned p.1)) e
              (lookup-folds_of position pinned groups p.0 d
                ∙ ap (option_map (group_fold position pinned)) h)))
      (All-items groups d)

folds_of-IsDict :
    (position : Position) (pinned groups : Dict String String)
    → IsDict (folds_of position pinned groups)
unfolding folds_of
folds_of-IsDict position pinned groups =
    assign_all-IsDict (map_values (group_fold position pinned) groups) [] tt

option_map-some :
    (f : String → String) (o : Option String) (y : String)
    → option_map f o ≡ some y
    → (x : String) × (o ≡ some x) × (f x ≡ y)
option_map-some f none y h = cc
option_map-some f (some x) y h = (x, refl, some-injective h)

eval_vacancies-IsEvalFold :
    (folds : Dict String String) (v : String)
    → IsDict folds
    → IsEvalFold (lookup v (eval_vacancies folds))
eval_vacancies-IsEvalFold folds v d =
    subst IsEvalFold (sym (lookup-eval_vacancies v folds d)) (keep_eval-IsEvalFold (lookup v folds))

-- If the folds of some vacancies were assigned, with any frozen split, and their evaluation
-- vacancies are then frozen, then the folds can be assigned again, whatever the seed and the ratios
-- are, and every evaluation vacancy keeps its fold.
pub assign_folds-eval_vacancies :
    (position position' : Position) (groups frozen folds : Dict String String) (v fold : String)
    → IsDict groups
    → assign_folds position groups frozen ≡ ok folds
    → lookup v folds ≡ some fold
    → is_eval fold ≡ true
    → (folds' : Dict String String) × (assign_folds position' groups (eval_vacancies folds)
        ≡ ok folds')
      × (lookup v folds' ≡ some fold)
unfolding assign_folds lookup
assign_folds-eval_vacancies position position' groups frozen folds v fold d assigned has good =
    let (pinned, _, r) = bind-ok (pin_groups frozen groups []) _ folds assigned in
    let e : folds_of position pinned groups ≡ folds = ok-injective r in
    let d' : IsDict folds = subst IsDict e (folds_of-IsDict position pinned groups) in
    let recorded = eval_vacancies folds in
    let old = group_fold position pinned in
    let (g, in_group, same) = option_map-some old (lookup v groups) fold (
      sym (lookup-folds_of position pinned groups v d)
      ∙ subst (λ q. lookup v q ≡ some fold) (sym e) has) in
    let good' : is_eval (old g) ≡ true = subst (λ x. is_eval x ≡ true) (sym same) good in
    let (pinned', total) =
      pin_groups-total recorded groups [] (λ w. eval_vacancies-IsEvalFold folds w d') in
    let pin : lookup g pinned' ≡ some (old g) =
      pin_groups-pin_of recorded g groups [] pinned' total
      ∙ pin_of-reaches recorded old g good' v groups none
          (All-Asks position pinned groups folds d e d') in_group (inl refl) in
    (
      folds_of position' pinned' groups,
      ap (λ m. m >>= λ q. ok (folds_of position' q groups)) total,
      lookup-folds_of position' pinned' groups v d
          ∙ ap (option_map (group_fold position' pinned')) in_group
          ∙ ap (λ o. some (fold_or o (hashed_fold position' g))) pin
          ∙ ap (λ x. some x) same,
    )
