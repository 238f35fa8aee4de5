-- ===== src/Middleware/Failures.antt =====
-- The wrapper around a node that raises, and around one that returns.
use compliance_agent_platfor.Base.{
  ◌≡◌, ◌⊎◌, refl, ap, ◌∙◌, true, false, [], ◌∷◌, ◌++◌, Option, none, some, inl, inr, Bool-cases,
}
use compliance_agent_platfor.Json.{str, obj, field, end}
use compliance_agent_platfor.Error.{Exn, Result, ok, err, is_bubble_up}
use compliance_agent_platfor.Exec.{World, Exec, raise, catch, pure, audit_row, ◌>>=◌, ◌>>◌}
use compliance_agent_platfor.Exec.Runs.{runs-ok, runs-err, catch-ok, catch-err}
use compliance_agent_platfor.Audit.Log.{
  AuditRecord, AuditRow, make_row, new_row, newest, tail_hash, write_audit,
}
use compliance_agent_platfor.Schemas.Alert.{ScreeningAlert}
use compliance_agent_platfor.Schemas.State.{ScreeningState}
use compliance_agent_platfor.Graph.Context.{NodeContext}
use compliance_agent_platfor.Middleware.{
  NodeName, node_text, type_name, alert_id_of, failure_row, wrap_node, audit_node_failure,
  on_failure, post_hook,
}

-- The record of a failed node, independent of the code that makes it.
pub record IsFailure (ctx : NodeContext) (name : NodeName) (s : ScreeningState) (e : Exn)
    (r : AuditRecord) : Type 0 where
  pub about :
      ((r.alert_id ≡ "unknown") × (s.alert ≡ none))
      ⊎ ((a : ScreeningAlert) × ((s.alert ≡ some a) × (r.alert_id ≡ a.alert_id)))
  pub thread : r.thread_id ≡ r.alert_id
  pub step : r.step ≡ node_text name
  pub event : (r.actor ≡ "system") × (r.event ≡ "node_failed")
  pub error :
      r.detail
      ≡ some (
          obj
            (field "error" (str (ctx.outside.repr e)) (field "error_type" (str (type_name e)) end)))

-- How the wrapper ends when the node has raised `e` in the world `v`.
pub data Raises (ctx : NodeContext) (name : NodeName) (s : ScreeningState) (e : Exn) (v : World)
    (r : Result ScreeningState × World) : Type 0 where
  interrupt : is_bubble_up e ≡ true → r ≡ (err e, v) → Raises ctx name s e v r
  recorded :
      (entry : AuditRecord) (written : AuditRow)
      → is_bubble_up e ≡ false
      → IsFailure ctx name s e entry
      → ctx.outside.audit_refused e entry ≡ none
      → r.0 ≡ err e
      → r.1.calls ≡ v.calls
      → r.1.audit.rows ≡ v.audit.rows ++ written ∷ []
      → written
        ≡ make_row ctx.outside.hasher v.audit.next_id
            (ctx.outside.now v.ticks)
            entry
            (tail_hash (newest v.audit.rows))
      → Raises ctx name s e v r
  refused :
      (entry : AuditRecord) (refusal : Exn)
      → is_bubble_up e ≡ false
      → IsFailure ctx name s e entry
      → ctx.outside.audit_refused e entry ≡ some refusal
      → r ≡ (err refusal, v)
      → Raises ctx name s e v r

module _ (ctx : NodeContext) where
  failure_about :
      (s : ScreeningState) (o : Option ScreeningAlert)
      → s.alert ≡ o
      → ((alert_id_of o ≡ "unknown") × (s.alert ≡ none))
        ⊎ ((a : ScreeningAlert) × ((s.alert ≡ some a) × (alert_id_of o ≡ a.alert_id)))
  failure_about s none q = inl (refl, q)
  failure_about s (some a) q = inr (a, (q, refl))

  failure_row-IsFailure :
      (name : NodeName) (s : ScreeningState) (e : Exn)
      → IsFailure ctx name s e (failure_row ctx s name e)
  failure_row-IsFailure name s e = record {
    about = failure_about s s.alert refl;
    thread = refl;
    step = refl;
    event = (refl, refl);
    error = refl;
  }

  module _ (s : ScreeningState) (name : NodeName) (e : Exn) (v : World)
      (failed : is_bubble_up e ≡ false) where
    on_failure-recorded :
        ctx.outside.audit_refused e (failure_row ctx s name e) ≡ none
        → on_failure ctx s name e v
          ≡ (err e, (audit_row ctx.outside (failure_row ctx s name e) v).1)
    unfolding audit_node_failure ◌>>=◌
    on_failure-recorded q = rw (failed, q) refl

    on_failure-refused :
        (refusal : Exn)
        → ctx.outside.audit_refused e (failure_row ctx s name e) ≡ some refusal
        → on_failure ctx s name e v ≡ (err refusal, v)
    unfolding audit_node_failure ◌>>=◌
    on_failure-refused refusal q = rw (failed, q) refl

  module _ (name : NodeName) (fn : ScreeningState → Exec ScreeningState) (s : ScreeningState)
      (w w' : World) where
    pub wrap_node-failing :
        (e e' : Exn) (v : World)
        → fn s w ≡ (err e, w')
        → on_failure ctx s name e w' ≡ (err e', v)
        → wrap_node ctx name fn s w ≡ (err e', v)
    unfolding wrap_node
    wrap_node-failing e e' v q p =
        runs-err (catch (fn s) (on_failure ctx s name)) (λ u. do post_hook ctx name s u; pure u) w v
          e' (catch-err (fn s) (on_failure ctx s name) w w' e q ∙ p)

    module _ (e : Exn) (q : fn s w ≡ (err e, w')) where
      raises-recorded :
          is_bubble_up e ≡ false
          → ctx.outside.audit_refused e (failure_row ctx s name e) ≡ none
          → Raises ctx name s e w' (wrap_node ctx name fn s w)
      unfolding audit_row write_audit new_row
      raises-recorded f none_refused =
          let done = wrap_node-failing e e _ q (on_failure-recorded s name e w' f none_refused) in
          recorded (failure_row ctx s name e)
            (make_row ctx.outside.hasher w'.audit.next_id (ctx.outside.now w'.ticks)
              (failure_row ctx s name e) (tail_hash (newest w'.audit.rows)))
            f (failure_row-IsFailure name s e) none_refused (ap (λ p. p.0) done)
            (ap (λ p. p.1.calls) done) (ap (λ p. p.1.audit.rows) done) refl

      raises-by_answer :
          is_bubble_up e ≡ false
          → (o : Option Exn) → ctx.outside.audit_refused e (failure_row ctx s name e) ≡ o
          → Raises ctx name s e w' (wrap_node ctx name fn s w)
      raises-by_answer f none a = raises-recorded f a
      raises-by_answer f (some refusal) a =
          refused (failure_row ctx s name e) refusal f (failure_row-IsFailure name s e) a
            (wrap_node-failing e refusal w' q (on_failure-refused s name e w' f refusal a))

      -- A node that raises: an interrupt of the graph is raised again, with the world as the node left
      -- it. Another exception is raised again behind one more row, the next of the chain, which names
      -- the alert (or "unknown"), the node and the exception; if the database refuses that row, its own
      -- exception is raised and the world is as the node left it.
      pub wrap_node-Raises : Raises ctx name s e w' (wrap_node ctx name fn s w)
      unfolding raise
      wrap_node-Raises = elim (Bool-cases (is_bubble_up e)) [
        | inl b ↦ interrupt b (wrap_node-failing e e w' q (rw b refl))
        | inr f ↦ raises-by_answer f (ctx.outside.audit_refused e (failure_row ctx s name e)) refl
      ]

    -- A node that returns: the wrapper runs the check behind it and returns the same update.
    pub wrap_node-returns :
        (u : ScreeningState)
        → fn s w ≡ (ok u, w')
        → wrap_node ctx name fn s w ≡ (do post_hook ctx name s u; pure u) w'
    unfolding wrap_node
    wrap_node-returns u q =
        runs-ok (catch (fn s) (on_failure ctx s name)) (λ u. do post_hook ctx name s u; pure u) w w'
          u (catch-ok (fn s) (on_failure ctx s name) w w' u q)
