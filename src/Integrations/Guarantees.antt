-- ===== src/Integrations/Guarantees.antt =====
-- When a tool that src/toolboundary/integrations/langchain.py or crewai.py wraps runs.
use toolboundary.Common.{◌≡◌, refl, ◌⊎◌, inl, inr, Option, none, some, Option-cases}
use toolboundary.Common.Dict.{Dict}
use toolboundary.Exceptions.{Error}
use toolboundary.Numeric.{FloatParsing}
use toolboundary.Evidence.{Hashing}
use toolboundary.Provider.{EvidenceProvider}
use toolboundary.RateLimiter.Interface.{RateLimiter}
use toolboundary.Boundary.{Boundary}
use toolboundary.Boundary.Policy.{Permits}
use toolboundary.Guarding.{Ending, blocked, ended, Ran, type_error, ran, bound_run, GuardMoment}
use toolboundary.Guarding.Guarantees.{guarded_run-permitted}
use toolboundary.Integrations.ToolGuard.{BaseTool, ToolGuard}
use toolboundary.Integrations.LangChain.{Arguments, async_body, langchain_call}
use toolboundary.Integrations.LangChain
use toolboundary.Integrations.CrewAi.{Bound, expand, crewai_call, run_body}
use toolboundary.Integrations.CrewAi

module _ (H : Hashing) (F : FloatParsing) (L : RateLimiter) (P : EvidenceProvider) {W : Type 0}
    (g : ToolGuard) (m : GuardMoment) (w : W) (b : Boundary L.State P.State) where
  -- Each of the two methods of a wrapped LangChain tool either raises the library's exception
  -- before the tool runs, and the world is as it was; or the boundary's policy permits the call
  -- that the arguments by name describe, the tool's own method runs once (`_run` for a tool without
  -- `_arun`), and the method ends as it ends.
  pub langchain_runs_only_if_permitted :
      {A : Type 0} (tool : BaseTool (Arguments A) W) (a : Arguments A)
      → let permitted =
          Permits F m.authorize.moment b.settings (langchain_call tool.name g a.kwargs).call in
        let (outcome, w', b') = LangChain.run H F L P tool g m a w b in
        let (async_outcome, w'', b'') = LangChain.arun H F L P tool g m a w b in
        (((e : Error) × (outcome ≡ blocked e) × (w' ≡ w))
          ⊎ (permitted × (outcome ≡ ended (tool.run a w).0) × (w' ≡ (tool.run a w).1)))
        × (((e : Error) × (async_outcome ≡ blocked e) × (w'' ≡ w))
            ⊎ (permitted
                × (async_outcome ≡ ended (async_body tool a w).0)
                × (w'' ≡ (async_body tool a w).1)))
  unfolding LangChain.run LangChain.arun
  langchain_runs_only_if_permitted tool a =
      let q = langchain_call tool.name g a.kwargs in
      (
        guarded_run-permitted H F L P q none m (tool.run a) w b,
        guarded_run-permitted H F L P q none m (async_body tool a) w b,
      )

  module _ {A : Type 0} (bind : A → Option (Dict Bound)) (tool : BaseTool A W) where
    -- the arguments do not bind and nothing happens, or the run is guarded
    abbrev pub BoundAndGuarded :
        (A → W → Ending × W) → A → Ran × W × Boundary L.State P.State → Type 0
    BoundAndGuarded body a r =
        ((bind a ≡ none) × (r ≡ (type_error, w, b)))
        ⊎ ((bound : Dict Bound) × (bind a ≡ some bound)
            × (((e : Error) × (r.0 ≡ ran (blocked e)) × (r.1 ≡ w))
                ⊎ (Permits F m.authorize.moment b.settings
                      (crewai_call tool.name g (expand bound)).call
                    × (r.0 ≡ ran (ended (body a w).0))
                    × (r.1 ≡ (body a w).1))))

    run_body-Guarded :
        (body : A → W → Ending × W) (a : A)
        → BoundAndGuarded body a (run_body H F L P bind tool g body m a w b)
    unfolding run_body bound_run
    run_body-Guarded body a = elim (Option-cases (bind a)) [
      | inl unbound ↦ inl (unbound, rw (unbound, run_body) refl)
      | inr (bound, is_bound) ↦ inr (
        bound,
        is_bound,
        rw (is_bound, run_body)
            (elim (guarded_run-permitted H F L P (crewai_call tool.name g (expand bound)) none m
              (body a) w b) [
                | inl (e, stopped, same) ↦ inl (e, rw stopped refl, same)
                | inr (permitted, ends, world) ↦ inr (permitted, rw ends refl, world)
              ]),
      )
    ]

    -- Each of the two methods of a wrapped CrewAI tool raises TypeError, and changes nothing, where
    -- the arguments do not bind to the tool's signature; else it either raises the library's
    -- exception before the tool runs, and the world is as it was; or the boundary's policy permits
    -- the call that the bound arguments describe, those that `**kwargs` took included, the tool's
    -- own method runs once, and the method ends as it ends.
    pub crewai_runs_only_if_permitted :
        (tool_arun : A → W → Ending × W) (a : A)
        → BoundAndGuarded tool.run a (CrewAi.run H F L P bind tool g m a w b)
          × BoundAndGuarded tool_arun a (CrewAi.arun H F L P bind tool g tool_arun m a w b)
    unfolding CrewAi.run CrewAi.arun
    crewai_runs_only_if_permitted tool_arun a =
        (run_body-Guarded tool.run a, run_body-Guarded tool_arun a)
