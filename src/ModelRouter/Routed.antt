-- ===== src/ModelRouter/Routed.antt =====
-- llm/router.py: which provider's answer or error a route ends with.
use job_searching_assistant.Prelude.{
  ◌≡◌, refl, ap, sym, Bool, true, false, Option, List, [], ◌∷◌, ◌++◌, String, Result, ok, raise,
  inl, inr, Bool-cases, subst, append-nil, append_assoc,
}
use job_searching_assistant.ModelRouter.{
  Setting, ModelRequest, ModelProvider, OutputSchema, ProviderError, RouteError, propagated,
  no_model, is_propagated, is_retryable_provider_error, Failures, no_failures, nonempty_all,
  is_over_budget, attempt, after_attempt, route_from, route,
}

module _ (st : Setting) (schema : OutputSchema st) (request : ModelRequest st) where
  open st use {amounts, Output, World}

  abbrev over : ModelProvider st → Bool
  over = is_over_budget st schema request

  abbrev try_ : ModelProvider st → World → Result ProviderError Output × World
  try_ = attempt st schema request

  -- A provider that is passed over, with the verdicts on whether its failure may go away: one that
  -- does not support the task gives none.
  pub data Pass (p : ModelProvider st) (w : World) : List Bool → World → Type 0 where
    unsupported : p.supports request.task_class ≡ false → Pass p w [] w
    over_budget : p.supports request.task_class ≡ true → over p ≡ true → Pass p w (false ∷ []) w
    failed :
        (w' : World) (e : ProviderError)
        → p.supports request.task_class ≡ true
        → over p ≡ false
        → try_ p w ≡ (raise e, w')
        → is_propagated e ≡ false
        → Pass p w (is_retryable_provider_error e ∷ []) w'

  -- Providers that are passed over, one after the other.
  pub data Passed : List (ModelProvider st) → World → List Bool → World → Type 0 where
    none_asked : (w : World) → Passed [] w [] w
    next_passed :
        (p : ModelProvider st) (ps : List (ModelProvider st)) (w w' w'' : World) (bs cs : List Bool)
        → Pass p w bs w'
        → Passed ps w' cs w''
        → Passed (p ∷ ps) w (bs ++ cs) w''

  -- How a route may end, after failures with the verdicts `before`: the first provider that is not
  -- passed over answers, or its exception is raised as it is; all are passed over.
  pub data Routed (before : List Bool) (providers : List (ModelProvider st)) (w : World)
      : Result RouteError Output × World → Type 0 where
    answered :
        (ps : List (ModelProvider st)) (p : ModelProvider st) (qs : List (ModelProvider st))
        (bs : List Bool) (w' w'' : World) (output : Output)
        → providers ≡ ps ++ p ∷ qs
        → Passed ps w bs w'
        → p.supports request.task_class ≡ true
        → over p ≡ false
        → try_ p w' ≡ (ok output, w'')
        → Routed before providers w (ok output, w'')
    stopped :
        (ps : List (ModelProvider st)) (p : ModelProvider st) (qs : List (ModelProvider st))
        (bs : List Bool) (w' w'' : World) (e : ProviderError)
        → providers ≡ ps ++ p ∷ qs
        → Passed ps w bs w'
        → p.supports request.task_class ≡ true
        → over p ≡ false
        → try_ p w' ≡ (raise e, w'')
        → is_propagated e ≡ true
        → Routed before providers w (raise (propagated e), w'')
    exhausted :
        (bs : List Bool) (w' : World) (errors : List (String × Option ProviderError))
        → Passed providers w bs w'
        → Routed before providers w (raise (no_model errors (nonempty_all (before ++ bs))), w')

  Routed-next :
      (before : List Bool) (p : ModelProvider st) (ps : List (ModelProvider st)) (w w' : World)
      (bs : List Bool) (r : Result RouteError Output × World)
      → Pass p w bs w'
      → Routed (before ++ bs) ps w' r
      → Routed before (p ∷ ps) w r
  Routed-next before p ps w w' bs _ h (Routed.answered xs q ys cs t u o split k l m n) =
      Routed.answered (p ∷ xs) q ys (bs ++ cs) t u o (ap (◌∷◌ p) split)
        (Passed.next_passed p xs w w' t bs cs h k) l m n
  Routed-next before p ps w w' bs _ h (Routed.stopped xs q ys cs t u e split k l m n o) =
      Routed.stopped (p ∷ xs) q ys (bs ++ cs) t u e (ap (◌∷◌ p) split)
        (Passed.next_passed p xs w w' t bs cs h k) l m n o
  Routed-next before p ps w w' bs _ h (Routed.exhausted cs t errors k) =
      subst (λ l. Routed before (p ∷ ps) w (raise (no_model errors (nonempty_all l)), t))
        (sym (append_assoc before bs cs))
        (Routed.exhausted (bs ++ cs) t errors (Passed.next_passed p ps w w' t bs cs h k))

  abbrev from : List (ModelProvider st) → Failures → World → Result RouteError Output × World
  from = route_from st schema request

  -- What follows an attempt.
  after_attempt-Routed :
      (p : ModelProvider st) (ps : List (ModelProvider st)) (f : Failures) (w : World)
      (a : Result ProviderError Output × World)
      → p.supports request.task_class ≡ true
      → over p ≡ false
      → try_ p w ≡ a
      → ((f' : Failures) (w' : World) → Routed f'.retryable_results ps w' (from ps f' w'))
      → Routed f.retryable_results (p ∷ ps) w (after_attempt st schema request p a f (from ps))
  after_attempt-Routed p ps f w (ok output, w') on free e rest =
      Routed.answered [] p ps [] w w' output refl (Passed.none_asked w) on free e
  after_attempt-Routed p ps f w (raise error, w') on free e rest =
      elim (Bool-cases (is_propagated error)) [
        | inl stop ↦
            rw stop (Routed.stopped [] p ps [] w w' error refl (Passed.none_asked w) on free e stop)
        | inr go ↦ rw go (
            Routed-next f.retryable_results p ps w w' _ _ (Pass.failed w' error on free e go)
              (rest _ w'))
      ]

  route_from-Routed :
      (providers : List (ModelProvider st)) (f : Failures) (w : World)
      → Routed f.retryable_results providers w (from providers f w)
  unfolding route_from
  route_from-Routed [] f w =
      subst
        (λ l.
          Routed f.retryable_results [] w (raise (no_model f.provider_errors (nonempty_all l)), w))
        (append-nil f.retryable_results)
        (Routed.exhausted [] w f.provider_errors (Passed.none_asked w))
  route_from-Routed (p ∷ ps) f w = elim (Bool-cases (p.supports request.task_class)) [
    | inr off ↦ rw off (
        Routed-next f.retryable_results p ps w w [] _ (Pass.unsupported off) (
          subst (λ l. Routed l ps w (from ps f w)) (sym (append-nil f.retryable_results))
            (route_from-Routed ps f w)))
    | inl on ↦ elim (Bool-cases (over p)) [
      | inl dear ↦
          rw (on, dear)
            (Routed-next f.retryable_results p ps w w _ _ (Pass.over_budget on dear)
              (route_from-Routed ps _ w))
      | inr free ↦
          rw (on, free) (after_attempt-Routed p ps f w _ on free refl (route_from-Routed ps))
    ]
  ]

  -- A request with a positive budget and timeout: the providers are asked in their order, and those
  -- that do not support the task, are over the budget or fail are passed over; the first that is
  -- not passed over gives its answer, or an output that was cut off, no JSON or timed out, which is
  -- raised as it is. NoModelAvailableError is raised only if all were passed over, and it is
  -- retryable exactly if there was a failure and every failure may go away.
  pub route-Routed :
      (providers : List (ModelProvider st)) (w : World)
      → amounts.is_positive request.max_cost_usd ≡ true
      → amounts.is_positive request.timeout_seconds ≡ true
      → Routed [] providers w (route st schema request providers w)
  unfolding route
  route-Routed providers w cost time = rw (cost, time) (route_from-Routed providers no_failures w)
