-- ===== src/AnnotationDataset/Pins.antt =====
-- domain/annotation_dataset.py: what each group is pinned to.
use job_searching_assistant.Prelude.{
  ◌≡◌, ◌≢◌, refl, sym, ap, ◌∙◌, subst, Bool, true, false, Option, some, none, List, [], ◌∷◌, String,
  ◌==◌, string_eq, if◌then◌else◌, ok, arith, inl, inr, Bool-cases, ◌||◌, ◌⊎◌, All, bind-ok,
  ok-injective,
}
use job_searching_assistant.Prelude.Dict.{
  Dict, lookup, assign, lookup-assign_self, lookup-assign_ne,
}
use job_searching_assistant.AnnotationDataset.{
  is_eval, is_test, validation, test, pin_one, pin_groups,
}

-- The fold that the frozen vacancies of one group ask for, one after the other: the last of them,
-- but once it is the test fold it stays.
abbrev pub next_pin : Option String → Option String → Option String
next_pin none current = current
next_pin (some fold) current = if is_test current then current else some fold

unfoldable pub pin_of :
    Dict String String → String → List (String × String) → Option String → Option String
pin_of frozen g [] current = current
pin_of frozen g ((vacancy, group) ∷ items) current =
    pin_of frozen g items (if group == g then next_pin (lookup vacancy frozen) current else current)

pub if_same : {A : Type 0} (b : Bool) (x : A) → (if b then x else x) ≡ x
if_same b x = ground arith

same_test : (x y : String) → x ≡ y → (x == y) ≡ true
same_test x y e = (string_eq.agrees x y).1 e

-- Pinning a group that another lookup is or is not about.
lookup-pinned :
    (fold g group : String) (pinned : Dict String String)
    → lookup g (if is_test (lookup group pinned) then pinned else assign group fold pinned)
      ≡ (if group == g then next_pin (some fold) (lookup g pinned) else lookup g pinned)
lookup-pinned fold g group pinned = elim (Bool-cases (group == g)) [
  | inl same ↦
      let e : group ≡ g = (string_eq.agrees group g).0 same in
      ground (arith, e, lookup-assign_self g fold pinned)
  | inr other ↦
      let e : group ≢ g = λ q. cc (same_test group g q) in
      ground (arith, lookup-assign_ne g group fold pinned e)
]

lookup-pin_one :
    (fold : Option String) (g group : String) (pinned pinned' : Dict String String)
    → pin_one fold group pinned ≡ ok pinned'
    → lookup g pinned' ≡ (if group == g then next_pin fold (lookup g pinned) else lookup g pinned)
lookup-pin_one none g group pinned pinned' h =
    let e : pinned ≡ pinned' = cc in rw (← e) (sym (if_same (group == g) (lookup g pinned)))
lookup-pin_one (some fold) g group pinned pinned' h = elim (Bool-cases (is_eval fold)) [
  | inl good ↦ let e = ok-injective (rw good at h) in rw (← e) (lookup-pinned fold g group pinned)
  | inr bad ↦ cc (rw bad at h)
]

pub pin_groups-pin_of :
    (frozen : Dict String String) (g : String) (items : List (String × String))
    (pinned pinned' : Dict String String)
    → pin_groups frozen items pinned ≡ ok pinned'
    → lookup g pinned' ≡ pin_of frozen g items (lookup g pinned)
unfolding pin_groups pin_of
pin_groups-pin_of frozen g [] pinned pinned' h = cc
pin_groups-pin_of frozen g ((v, group) ∷ items) pinned pinned' h =
    let (middle, first, rest) = bind-ok (pin_one (lookup v frozen) group pinned) _ pinned' h in
    pin_groups-pin_of frozen g items middle pinned' rest
    ∙ ap (pin_of frozen g items) (lookup-pin_one (lookup v frozen) g group pinned middle first)

or-last : (p q : Bool) → p ≡ false → (p || (q || false)) ≡ true → q ≡ true
or-last p q h k = ground arith

pub eval-cases : (fold : String) → is_eval fold ≡ true → (fold ≡ validation) ⊎ (fold ≡ test)
eval-cases fold h = elim (Bool-cases (fold == validation)) [
  | inl v ↦ inl ((string_eq.agrees fold validation).0 v)
  | inr other ↦
      inr ((string_eq.agrees fold test).0 (or-last (fold == validation) (fold == test) other h))
]

-- What one frozen vacancy asks for is an evaluation fold.
abbrev pub IsEvalFold : Option String → Type 0
IsEvalFold none = Unit
IsEvalFold (some fold) = is_eval fold ≡ true

pub pin_one-IsEvalFold :
    (fold : Option String) (group : String) (pinned pinned' : Dict String String)
    → pin_one fold group pinned ≡ ok pinned'
    → IsEvalFold fold
pin_one-IsEvalFold none group pinned pinned' h = tt
pin_one-IsEvalFold (some fold) group pinned pinned' h = elim (Bool-cases (is_eval fold)) [
  | inl good ↦ good
  | inr bad ↦ cc (rw bad at h)
]

pub pin_groups-evals :
    (frozen : Dict String String) (items : List (String × String))
    (pinned pinned' : Dict String String)
    → pin_groups frozen items pinned ≡ ok pinned'
    → All (λ p. IsEvalFold (lookup p.0 frozen)) items
unfolding pin_groups
pin_groups-evals frozen [] pinned pinned' h = tt
pin_groups-evals frozen ((v, group) ∷ items) pinned pinned' h =
    let (middle, first, rest) = bind-ok (pin_one (lookup v frozen) group pinned) _ pinned' h in
    (
      pin_one-IsEvalFold (lookup v frozen) group pinned middle first,
      pin_groups-evals frozen items middle pinned' rest,
    )

-- A pin that was asked for by `fold`: that fold, or the test fold.
abbrev pub IsPinnedTo : String → Option String → Type 0
IsPinnedTo fold pin = (x : String) × (pin ≡ some x) × ((x ≡ fold) ⊎ (x ≡ test))

not_test : (x : String) → (x == test) ≡ false → x ≢ test
not_test x h e = cc (same_test x test e)

-- A frozen vacancy of a group that is pinned to something else than the test fold.
moved-IsPinnedTo :
    (fold next x : String)
    → is_eval fold ≡ true
    → is_eval next ≡ true
    → (x ≡ fold) ⊎ (x ≡ test)
    → x ≢ test
    → (next ≡ fold) ⊎ (next ≡ test)
moved-IsPinnedTo fold next x h k c differs = elim (eval-cases next k) [
  | inr t ↦ inr t
  | inl v ↦ elim (eval-cases fold h) [
    | inl w ↦ inl (v ∙ sym w)
    | inr w ↦ elim c [ inl same ↦ absurd (differs (same ∙ w)) | inr same ↦ absurd (differs same) ]
  ]
]

next_some-stays :
    (fold next x : String)
    → is_eval fold ≡ true
    → is_eval next ≡ true
    → (x ≡ fold) ⊎ (x ≡ test)
    → IsPinnedTo fold (next_pin (some next) (some x))
next_some-stays fold next x h k c = elim (Bool-cases (x == test)) [
  | inl stays ↦ (x, rw stays refl, c)
  | inr moves ↦ (next, rw moves refl, moved-IsPinnedTo fold next x h k c (not_test x moves))
]

next_pin-stays :
    (fold : String) (next : Option String) (pin : Option String)
    → is_eval fold ≡ true
    → IsEvalFold next
    → IsPinnedTo fold pin
    → IsPinnedTo fold (next_pin next pin)
next_pin-stays fold none pin h k p = p
next_pin-stays fold (some next) pin h k (x, e, c) =
    subst (λ o. IsPinnedTo fold (next_pin (some next) o)) (sym e)
      (next_some-stays fold next x h k c)

pub pin_of-stays :
    (frozen : Dict String String) (g fold : String) (items : List (String × String))
    (pin : Option String)
    → is_eval fold ≡ true
    → All (λ p. IsEvalFold (lookup p.0 frozen)) items
    → IsPinnedTo fold pin
    → IsPinnedTo fold (pin_of frozen g items pin)
unfolding pin_of
pin_of-stays frozen g fold [] pin h a p = p
pin_of-stays frozen g fold ((v, group) ∷ items) pin h a p =
    pin_of-stays frozen g fold items _ h a.1 (elim (Bool-cases (group == g)) [
      | inl same ↦ rw same (next_pin-stays fold (lookup v frozen) pin h a.0 p)
      | inr other ↦ rw other p
    ])
