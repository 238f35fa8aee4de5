-- ===== src/Contract/Responses.antt =====
-- What a response of `invoke` says of the disposition.
use compliance_agent_platfor.Base.{
  String, ◌≡◌, ◌⊎◌, refl, sym, ◌∙◌, subst, false, is_empty, Option, none, some, arith,
}
use compliance_agent_platfor.Error.{Exn, ok, compliance_violation, graph_interrupt}
use compliance_agent_platfor.Exec.{World}
use compliance_agent_platfor.Exec.Yields.{ok_injective, Yields, Yields-lift, Yields-raise}
use compliance_agent_platfor.Schemas.Alert.{ScreeningAlert}
use compliance_agent_platfor.Schemas.Disposition.{Disposition, is_asserting, validate_disposition}
use compliance_agent_platfor.Schemas.Evaluation.{AnalystDecision}
use compliance_agent_platfor.Schemas.State.{ScreeningState}
use compliance_agent_platfor.Graph.Context.{NodeContext}
use compliance_agent_platfor.Graph.Run.{Stop, finished, stopped, exhausted, screen, resume_parked}
use compliance_agent_platfor.Graph.Policy.Recorded.{Recorded, run-Recorded}
use compliance_agent_platfor.Middleware.{NodeName}
use compliance_agent_platfor.Contract.{
  Payload, Response, disposed, caught, as_disposed, respond, start_run, invoke,
}

-- A disposition that a caller may rely on.
pub record IsReliable (d : Disposition) : Type 0 where
  pub valid : validate_disposition d ≡ ok d
  pub cited : (is_asserting d.disposition ≡ false) ⊎ (is_empty d.evidence ≡ false)

-- The disposition in a response, if it has one, is reliable.
abbrev pub Says : Response → Type 0
Says (disposed thread d) = IsReliable d
Says _ = Unit {0}

caught-Says : (thread : String) (e : Exn) (r : Response) → caught thread e ≡ ok r → Says r
caught-Says thread (compliance_violation id t reason) r q = subst Says (ok_injective _ r q) tt
caught-Says thread (graph_interrupt payload) r q = subst Says (ok_injective _ r q) tt
caught-Says thread _ r q = absurd (ground arith)

some_injective : {A : Type 0} (a b : A) → some a ≡ some b → a ≡ b
some_injective a b e = cc

module _ (ctx : NodeContext) where
  as_disposed-Says :
      (thread : String) (o : Option Disposition) (t : ScreeningState) (r : Response)
      → t.disposition ≡ o
      → Recorded ctx t
      → as_disposed thread o ≡ ok r
      → Says r
  as_disposed-Says thread none t r e b q = absurd (ground arith)
  as_disposed-Says thread (some d) t r e b q = subst Says (ok_injective (disposed thread d) r q) (
      subst IsReliable (some_injective b.disposition d (sym b.booked ∙ e))
        (record { valid = b.valid; cited = b.cited }))

  respond-Says :
      (thread : String) (stop : Stop) (r : Response)
      → ((t : ScreeningState) → stop ≡ finished t → Recorded ctx t)
      → respond thread stop ≡ ok r
      → Says r
  respond-Says thread (finished t) r k q =
      as_disposed-Says thread t.disposition t r refl (k t refl) q
  respond-Says thread (stopped s name e) r k q = caught-Says thread e r q
  respond-Says thread exhausted r k q = absurd (ground arith)

  module _ (saved : String → ScreeningState) where
    start_run-Says :
        (thread : String) (alert : Option ScreeningAlert) (resume : Option AnalystDecision)
        → Yields Says (start_run ctx saved thread alert resume)
    unfolding screen resume_parked
    start_run-Says thread alert (some d) = Yields-lift _ _ λ decision _. record {
      at = λ w r q.
          respond-Says thread (resume_parked ctx decision (saved thread) w).0 r
            (λ t. run-Recorded ctx 2 (some decision) NodeName.escalate (saved thread) t w) q;
    }
    start_run-Says thread (some a) none = record {
      at = λ w r q. respond-Says thread _ r (λ t. run-Recorded ctx 6 none NodeName.intake _ t w) q;
    }
    start_run-Says thread none none = Yields-raise _

    invoke-Says :
        (payload : Payload) (session_id : Option String)
        → Yields Says (invoke ctx saved payload session_id)
    unfolding invoke
    invoke-Says payload session_id =
        Yields-lift _ _
          λ alert _. Yields-lift _ _ λ thread _. start_run-Says thread alert payload.resume

    -- When `invoke` answers "disposed", for a new alert or a resumed one, the disposition in the
    -- response passes the validators, and has evidence if it is clear or true_match.
    pub invoke-IsReliable :
        (payload : Payload) (session_id : Option String) (w : World) (thread : String)
        (d : Disposition)
        → (invoke ctx saved payload session_id w).0 ≡ ok (disposed thread d)
        → IsReliable d
    invoke-IsReliable payload session_id w thread d =
        (invoke-Says payload session_id).at w (disposed thread d)
