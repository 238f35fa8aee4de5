-- ===== src/Graph/Trail/Runs.antt =====
-- The wrapped nodes and the runs only add to the audit trail, and leave a chain that verifies.
use compliance_agent_platfor.Base.{ℕ, zero, suc, ◌≡◌, true, Option, none, some, List, ◌++◌}
use compliance_agent_platfor.Error.{Exn, Result, ok, err}
use compliance_agent_platfor.Audit.Log.{AuditRow, AuditRecord, chain_genesis, verify_chain}
use compliance_agent_platfor.Audit.Chain.{verify_chain-verified_iff}
use compliance_agent_platfor.Audit.Append.{IsSound}
use compliance_agent_platfor.Exec.{World}
use compliance_agent_platfor.Exec.Keeps.{Keeps}
use compliance_agent_platfor.Middleware.{
  NodeName, wrap_node, audit_node_failure, check_dispose_citation, post_hook, on_failure,
  write_or_raise,
}
use compliance_agent_platfor.Schemas.State.{ScreeningState}
use compliance_agent_platfor.Schemas.Evaluation.{AnalystDecision}
use compliance_agent_platfor.Graph.Context.{NodeContext}
use compliance_agent_platfor.Graph.Run.{
  Stop, node, super_step, successor, run, along_edge, after_step,
}
use compliance_agent_platfor.Graph.Trail.{Appends, Appends-preorder}
use compliance_agent_platfor.Graph.Trail.Nodes.{
  trail_rules, intake-Appends, enrich-Appends, retrieve-Appends, evaluate-Appends, escalate-Appends,
  dispose-Appends,
}

module _ (ctx : NodeContext) where
  open ctx use {outside}

  post_hook-Appends :
      (name : NodeName) (s result : ScreeningState)
      → Keeps (Appends outside.hasher) (post_hook ctx name s result)
  unfolding check_dispose_citation
  post_hook-Appends NodeName.dispose s result = search trail_rules depth 20
  post_hook-Appends _ s result = search trail_rules

  write_or_raise-Appends :
      (refusal : Option Exn) (r : AuditRecord)
      → Keeps (Appends outside.hasher) (write_or_raise ctx refusal r)
  write_or_raise-Appends none r = search trail_rules
  write_or_raise-Appends (some e) r = search trail_rules

  on_failure-Appends :
      (s : ScreeningState) (name : NodeName) (e : Exn)
      → Keeps (Appends outside.hasher) (on_failure ctx s name e)
  unfolding audit_node_failure
  on_failure-Appends s name e = search (trail_rules, write_or_raise-Appends) depth 20

  node-Appends :
      (resume : Option AnalystDecision) (name : NodeName) (s : ScreeningState)
      → Keeps (Appends outside.hasher) (node ctx resume name s)
  unfolding node
  node-Appends resume NodeName.intake s = intake-Appends ctx s
  node-Appends resume NodeName.enrich s = enrich-Appends ctx s
  node-Appends resume NodeName.retrieve s = retrieve-Appends ctx s
  node-Appends resume NodeName.evaluate s = evaluate-Appends ctx s
  node-Appends resume NodeName.escalate s = escalate-Appends ctx resume s
  node-Appends resume NodeName.dispose s = dispose-Appends ctx s

  wrapped-Appends :
      (resume : Option AnalystDecision) (name : NodeName) (s : ScreeningState)
      → Keeps (Appends outside.hasher) (wrap_node ctx name (node ctx resume name) s)
  unfolding wrap_node
  wrapped-Appends resume name s =
      search (trail_rules, node-Appends, on_failure-Appends, post_hook-Appends) depth 20

  super_step-Appends :
      (resume : Option AnalystDecision) (name : NodeName) (s : ScreeningState) (w : World)
      → Appends outside.hasher w (super_step ctx resume name s w).1
  unfolding super_step
  super_step-Appends resume name s w = (wrapped-Appends resume name s).at w

  module _ (go_on : NodeName → ScreeningState → World → Stop × World)
      (rest : (next : NodeName) (s : ScreeningState) (w : World)
        → Appends outside.hasher w (go_on next s w).1) where
    along_edge-Appends :
        (name : NodeName) (s : ScreeningState) (edge : Result (Option NodeName)) (w : World)
        → Appends outside.hasher w (along_edge ctx go_on name s edge w).1
    along_edge-Appends name s (err e) w = (Appends-preorder outside.hasher).reflexive w
    along_edge-Appends name s (ok none) w = (Appends-preorder outside.hasher).reflexive w
    along_edge-Appends name s (ok (some next)) w = rest next s w

    after_step-Appends :
        (name : NodeName) (s : ScreeningState) (r : Result ScreeningState) (w : World)
        → Appends outside.hasher w (after_step ctx go_on name s r w).1
    after_step-Appends name s (err e) w = (Appends-preorder outside.hasher).reflexive w
    after_step-Appends name s (ok s') w = along_edge-Appends name s' (successor ctx name s') w

  -- A run from any node, however it stops, only adds rows to the audit trail.
  pub run-Appends :
      (steps : ℕ) (resume : Option AnalystDecision) (name : NodeName) (s : ScreeningState)
      (w : World)
      → Appends outside.hasher w (run ctx steps resume name s w).1
  unfolding run
  run-Appends zero resume name s w = (Appends-preorder outside.hasher).reflexive w
  run-Appends (suc steps) resume name s w =
      let (r, w') = super_step ctx resume name s w in
      (Appends-preorder outside.hasher).transitive w w' _ (super_step-Appends resume name s w)
        (after_step-Appends (run ctx steps resume) (run-Appends steps resume) name s r w')

  -- A run that begins with a sound audit table leaves one that `verify_chain` accepts, with every row
  -- that was there before as it was.
  pub run_trail :
      (steps : ℕ) (resume : Option AnalystDecision) (name : NodeName) (s : ScreeningState)
      (w : World)
      → IsSound outside.hasher w.audit
      → let after = (run ctx steps resume name s w).1.audit.rows in
        ((verify_chain outside.hasher after chain_genesis).verified ≡ true)
        × ((more : List AuditRow) × (after ≡ w.audit.rows ++ more))
  run_trail steps resume name s w sound =
      let a = run-Appends steps resume name s w in
      (
        (verify_chain-verified_iff outside.hasher _ chain_genesis).1 (a.sound sound).chained,
        (a.more, a.grown),
      )
