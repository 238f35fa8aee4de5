-- ===== src/Graph/Policy/Finish.antt =====
-- The rule for runs that finish: a property of the channels that every super-step passes on to the
-- next node, and what it comes to at END.
use compliance_agent_platfor.Base.{ℕ, zero, suc, ◌≡◌, refl, subst, Option, none, some, arith}
use compliance_agent_platfor.Error.{Result, ok, err}
use compliance_agent_platfor.Exec.{World}
use compliance_agent_platfor.Exec.Yields.{Yields}
use compliance_agent_platfor.Schemas.State.{ScreeningState}
use compliance_agent_platfor.Schemas.Evaluation.{AnalystDecision}
use compliance_agent_platfor.Graph.Context.{NodeContext}
use compliance_agent_platfor.Graph.Run.{
  Stop, finished, super_step, successor, run, along_edge, after_step,
}
use compliance_agent_platfor.Middleware.{NodeName}

finished_injective : (s s' : ScreeningState) → finished s ≡ finished s' → s ≡ s'
finished_injective s s' e = cc

module _ (ctx : NodeContext) (resume : Option AnalystDecision)
    (Ready : NodeName → ScreeningState → Type 0) (Done : ScreeningState → Type 0) where
  -- After a super-step of `name`: the next node is ready, or the run is done.
  pub record Passes (name : NodeName) (s' : ScreeningState) : Type 0 where
    pub goes_on : (next : NodeName) → successor ctx name s' ≡ ok (some next) → Ready next s'
    pub ends : successor ctx name s' ≡ ok none → Done s'

  module _
      (passes : (name : NodeName) (s : ScreeningState)
        → Ready name s
        → Yields (Passes name) (super_step ctx resume name s)) where
    along_edge-Done :
        (go_on : NodeName → ScreeningState → World → Stop × World)
        (rest : (next : NodeName) (s s' : ScreeningState) (w : World)
          → Ready next s
          → (go_on next s w).0 ≡ finished s'
          → Done s')
        (name : NodeName) (s s' : ScreeningState) (edge : Result (Option NodeName)) (w : World)
        → successor ctx name s ≡ edge
        → Passes name s
        → (along_edge ctx go_on name s edge w).0 ≡ finished s'
        → Done s'
    along_edge-Done go_on rest name s s' (err e) w p k q = absurd (ground arith)
    along_edge-Done go_on rest name s s' (ok none) w p k q =
        subst Done (finished_injective s s' q) (k.ends p)
    along_edge-Done go_on rest name s s' (ok (some next)) w p k q =
        rest next s s' w (k.goes_on next p) q

    after_step-Done :
        (go_on : NodeName → ScreeningState → World → Stop × World)
        (rest : (next : NodeName) (s s' : ScreeningState) (w : World)
          → Ready next s
          → (go_on next s w).0 ≡ finished s'
          → Done s')
        (name : NodeName) (s s' : ScreeningState) (r : Result ScreeningState) (w : World)
        → ((u : ScreeningState) → r ≡ ok u → Passes name u)
        → (after_step ctx go_on name s r w).0 ≡ finished s'
        → Done s'
    after_step-Done go_on rest name s s' (err e) w k q = absurd (ground arith)
    after_step-Done go_on rest name s s' (ok u) w k q =
        along_edge-Done go_on rest name u s' (successor ctx name u) w refl (k u refl) q

    pub run-Done :
        (steps : ℕ) (name : NodeName) (s s' : ScreeningState) (w : World)
        → Ready name s
        → (run ctx steps resume name s w).0 ≡ finished s'
        → Done s'
    unfolding run
    run-Done zero name s s' w ready q = absurd (ground arith)
    run-Done (suc steps) name s s' w ready q =
        let (r, w') = super_step ctx resume name s w in
        after_step-Done (run ctx steps resume) (run-Done steps) name s s' r w'
          ((passes name s ready).at w) q
