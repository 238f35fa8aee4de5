-- ===== src/Graph/Serving.antt =====
-- The rails and the fallback of `evaluate`: who may answer, and when nobody is asked.
use compliance_agent_platfor.Base.{
  String, ◌≡◌, refl, ap, ◌∙◌, true, false, List, ◌∷◌, none, some, if◌then◌else◌,
}
use compliance_agent_platfor.Base.Text.{codes, join, ◌+ₛ◌}
use compliance_agent_platfor.Error.{
  Exn, Result, ok, err, guardrail_violation, is_guardrail_violation,
}
use compliance_agent_platfor.Exec.{World, pure, raise, lift, read_clock, ◌>>=◌}
use compliance_agent_platfor.Exec.Runs.{lift-ok, runs-ok, runs-err, catch-ok, catch-err}
use compliance_agent_platfor.Guardrails.Cards.{find_pii}
use compliance_agent_platfor.Guardrails.Service.{GuardrailResult, check_pii, check_input}
use compliance_agent_platfor.Outside.{RawResult}
use compliance_agent_platfor.Graph.Context.{NodeContext}
use compliance_agent_platfor.Graph.Evaluate.{
  Attempt, answered, failed, input_rail_model, keep_failure, ask_primary, try_primary, use_fallback,
  or_fallback, call_model, serve,
}

module _ (ctx : NodeContext) (prompt : String) (w w2 : World) where
  ask_primary-answers :
      (raw : RawResult)
      → call_model ctx ctx.model ctx.model_backend prompt (read_clock w).1 ≡ (ok raw, w2)
      → ask_primary ctx prompt w ≡ (ok (answered raw w.ticks), w2)
  unfolding ask_primary ◌>>=◌
  ask_primary-answers raw q =
      let m = call_model ctx ctx.model ctx.model_backend prompt in
      let k = λ (raw : RawResult). pure (answered raw w.ticks) in
      let v = (read_clock w).1 in
      catch-ok (m >>= k) (keep_failure ctx (some w.ticks)) v w2 (answered raw w.ticks)
        (runs-ok m k v w2 raw q)

  ask_primary-fails :
      (e : Exn)
      → call_model ctx ctx.model ctx.model_backend prompt (read_clock w).1 ≡ (err e, w2)
      → is_guardrail_violation e ≡ false
      → ask_primary ctx prompt w ≡ (ok (failed e (some w.ticks)), w2)
  unfolding ask_primary ◌>>=◌
  ask_primary-fails e q n =
      let m = call_model ctx ctx.model ctx.model_backend prompt in
      let k = λ (raw : RawResult). pure (answered raw w.ticks) in
      let v = (read_clock w).1 in
      catch-err (m >>= k) (keep_failure ctx (some w.ticks)) v w2 e (runs-err m k v w2 e q)
      ∙ ap (λ b. (if b then raise e else pure (failed e (some w.ticks))) w2) n

module _ (ctx : NodeContext) (prompt rail_text : String) (w : World) where
  open ctx use {outside, model, model_backend, model_id}

  -- The text of the prompt contains PII: the PII floor refuses it, whatever the rails and models are;
  -- no rail and no model is called, no clock is read and no row is written.
  pub serve-refuses_pii :
      (c : String) (cs : List String)
      → find_pii outside.unicode (codes prompt) ≡ c ∷ cs
      → serve ctx prompt rail_text w
        ≡ (err (guardrail_violation "input" (some ("contains " +ₛ join ", " (c ∷ cs)))), w)
  unfolding serve check_pii ◌>>=◌
  serve-refuses_pii c cs q = rw q refl

  module _ (clean : check_pii outside prompt "input" ≡ ok tt) where
    serve_from :
        (attempt : Result Attempt) (w' : World)
        → try_primary ctx prompt rail_text w ≡ (attempt, w')
        → serve ctx prompt rail_text w ≡ (lift attempt >>= or_fallback ctx prompt rail_text) w'
    unfolding serve ◌>>=◌
    serve_from attempt w' q = rw (clean, q) refl

    module _ (w1 : World) where
      -- The input rail refuses the text with a guardrail's verdict: the verdict is raised as it is; the
      -- model is not called, and the fallback, if there is one, is not tried.
      pub serve-raises_verdict :
          (e : Exn)
          → check_input outside (input_rail_model ctx) rail_text w ≡ (err e, w1)
          → is_guardrail_violation e ≡ true
          → serve ctx prompt rail_text w ≡ (err e, w1)
      unfolding try_primary ◌>>=◌
      serve-raises_verdict e q v = serve_from (err e) w1 (rw (q, v) refl)

      module _ (r : GuardrailResult)
          (passed : check_input outside (input_rail_model ctx) rail_text w ≡ (ok r, w1))
          (w2 : World) where
        try_asks : try_primary ctx prompt rail_text w ≡ ask_primary ctx prompt w1
        unfolding try_primary ◌>>=◌
        try_asks = rw passed refl

        -- The input rail passes and the primary model answers: its answer is served, under its name.
        pub serve-primary :
            (raw : RawResult)
            → call_model ctx model model_backend prompt (read_clock w1).1 ≡ (ok raw, w2)
            → serve ctx prompt rail_text w ≡ (
              ok (record {
                raw = raw;
                started = w1.ticks;
                by = record { model = model; backend = model_backend; model_id = model_id };
              }),
              w2,
            )
        unfolding pure
        serve-primary raw q =
            serve_from (ok (answered raw w1.ticks)) w2
              (try_asks ∙ ask_primary-answers ctx prompt w1 w2 raw q)
            ∙ lift-ok (ok (answered raw w1.ticks)) (or_fallback ctx prompt rail_text) _ w2 refl

        module _ (e : Exn)
            (outage : call_model ctx model model_backend prompt (read_clock w1).1 ≡ (err e, w2))
            (not_verdict : is_guardrail_violation e ≡ false) where
          serve_after :
              serve ctx prompt rail_text w
              ≡ use_fallback ctx prompt rail_text e (some w1.ticks) ctx.fallback w2
          serve_after =
              serve_from (ok (failed e (some w1.ticks))) w2
                (try_asks ∙ ask_primary-fails ctx prompt w1 w2 e outage not_verdict)
              ∙ lift-ok (ok (failed e (some w1.ticks))) (or_fallback ctx prompt rail_text) _ w2 refl

          -- Without a fallback, the primary's exception is raised.
          pub serve-outage : ctx.fallback ≡ none → serve ctx prompt rail_text w ≡ (err e, w2)
          unfolding raise
          serve-outage f =
              serve_after ∙ ap (λ o. use_fallback ctx prompt rail_text e (some w1.ticks) o w2) f
