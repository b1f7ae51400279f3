-- ===== src/AnnotationDataset/Items.antt =====
-- domain/annotation_dataset.py: the entries that a freeze records, by vacancy.
use job_searching_assistant.Prelude.{
  ◌≡◌, ◌≢◌, refl, sym, ap, ◌∙◌, subst, Bool, true, false, Option, some, none, [], ◌∷◌, String, ◌==◌,
  string_eq, if◌then◌else◌, arith, inl, inr, Bool-cases, All, filter_by, text_lt, All-filter_by,
}
use job_searching_assistant.Prelude.Dict.{
  Dict, IsDict, lookup, lookup-absent, lookup-assign_all, or_else-none,
}
use job_searching_assistant.AnnotationDataset.{is_eval, insert_item, sorted_items, eval_vacancies}

-- An entry that a freeze records.
abbrev pub keep_eval : Option String → Option String
keep_eval none = none
keep_eval (some fold) = if is_eval fold then some fold else none

insert_item-All :
    (P : String × String → Type 0) (p : String × String) (items : Dict String String)
    → P p
    → All P items
    → All P (insert_item p items)
insert_item-All P p [] h a = (h, tt)
insert_item-All P p (q ∷ items) h a = elim (Bool-cases (text_lt p.0 q.0)) [
  | inl lt ↦ rw lt (h, (a.0, a.1))
  | inr ge ↦ rw ge (a.0, insert_item-All P p items h a.1)
]

sorted_items-All :
    (P : String × String → Type 0) (items : Dict String String)
    → All P items
    → All P (sorted_items items)
sorted_items-All P [] a = tt
sorted_items-All P (p ∷ items) a =
    insert_item-All P p (sorted_items items) a.0 (sorted_items-All P items a.1)

insert_item-IsDict :
    (k v : String) (items : Dict String String)
    → All (λ p. p.0 ≢ k) items
    → IsDict items
    → IsDict (insert_item (k, v) items)
insert_item-IsDict k v [] a d = (tt, tt)
insert_item-IsDict k v ((j, w) ∷ items) a d = elim (Bool-cases (text_lt k j)) [
  | inl lt ↦ rw lt (a, d)
  | inr ge ↦ rw ge (
    insert_item-All (λ p. p.0 ≢ j) (k, v) items (λ e. a.0 (sym e)) d.0,
    insert_item-IsDict k v items a.1 d.1,
  )
]

pub sorted_items-IsDict : (items : Dict String String) → IsDict items → IsDict (sorted_items items)
sorted_items-IsDict [] d = tt
sorted_items-IsDict ((k, v) ∷ items) d =
    insert_item-IsDict k v (sorted_items items) (sorted_items-All (λ p. p.0 ≢ k) items d.0)
      (sorted_items-IsDict items d.1)

lookup-insert_item :
    (x k v : String) (items : Dict String String)
    → All (λ p. p.0 ≢ k) items
    → lookup x (insert_item (k, v) items) ≡ lookup x ((k, v) ∷ items)
unfolding lookup
lookup-insert_item x k v [] a = refl
lookup-insert_item x k v ((j, w) ∷ items) a =
    ground
      (arith, a.0, string_eq.agrees j x, string_eq.agrees k x, lookup-insert_item x k v items a.1)

lookup-sorted_items :
    (x : String) (items : Dict String String)
    → IsDict items
    → lookup x (sorted_items items) ≡ lookup x items
unfolding lookup
lookup-sorted_items x [] d = refl
lookup-sorted_items x ((k, v) ∷ items) d =
    lookup-insert_item x k v (sorted_items items) (sorted_items-All (λ p. p.0 ≢ k) items d.0)
    ∙ ap (λ o. if k == x then some v else o) (lookup-sorted_items x items d.1)

pub filter_by-IsDict :
    (p : String × String → Bool) (items : Dict String String)
    → IsDict items
    → IsDict (filter_by p items)
filter_by-IsDict p [] d = tt
filter_by-IsDict p ((k, v) ∷ items) d = elim (Bool-cases (p (k, v))) [
  | inl kept ↦ rw kept (All-filter_by (λ q. q.0 ≢ k) p items d.0, filter_by-IsDict p items d.1)
  | inr dropped ↦ rw dropped (filter_by-IsDict p items d.1)
]

eval-kept :
    (x k v : String) (items kept : Dict String String)
    → is_eval v ≡ true
    → lookup x kept ≡ keep_eval (lookup x items)
    → lookup x ((k, v) ∷ kept) ≡ keep_eval (lookup x ((k, v) ∷ items))
unfolding lookup
eval-kept x k v items kept good h = elim (Bool-cases (k == x)) [
  | inl same ↦ rw same (rw good refl)
  | inr other ↦ rw other h
]

eval-dropped :
    (x k v : String) (items : Dict String String)
    → is_eval v ≡ false
    → All (λ p. p.0 ≢ k) items
    → keep_eval (lookup x items) ≡ keep_eval (lookup x ((k, v) ∷ items))
unfolding lookup
eval-dropped x k v items bad a = elim (Bool-cases (k == x)) [
  | inl same ↦
      let absent : lookup x items ≡ none =
        lookup-absent x items
          (subst (λ i. All (λ p. p.0 ≢ i) items) ((string_eq.agrees k x).0 same) a) in
      rw (same, absent) (rw bad refl)
  | inr other ↦ rw other refl
]

lookup-filter_eval :
    (x : String) (items : Dict String String)
    → IsDict items
    → lookup x (filter_by (λ p. is_eval p.1) items) ≡ keep_eval (lookup x items)
unfolding lookup
lookup-filter_eval x [] d = refl
lookup-filter_eval x ((k, v) ∷ items) d =
    let rest = lookup-filter_eval x items d.1 in
    elim (Bool-cases (is_eval v)) [
      | inl kept ↦ rw kept (eval-kept x k v items (filter_by (λ p. is_eval p.1) items) kept rest)
      | inr dropped ↦ rw dropped (rest ∙ eval-dropped x k v items dropped d.0)
    ]

pub lookup-eval_vacancies :
    (x : String) (folds : Dict String String)
    → IsDict folds
    → lookup x (eval_vacancies folds) ≡ keep_eval (lookup x folds)
unfolding eval_vacancies lookup
lookup-eval_vacancies x folds d =
    lookup-assign_all x (filter_by (λ p. is_eval p.1) (sorted_items folds)) []
      (filter_by-IsDict _ (sorted_items folds) (sorted_items-IsDict folds d))
    ∙ or_else-none _
    ∙ lookup-filter_eval x (sorted_items folds) (sorted_items-IsDict folds d)
    ∙ ap keep_eval (lookup-sorted_items x folds d)
