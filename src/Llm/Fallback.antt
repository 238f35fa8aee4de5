-- ===== src/Llm/Fallback.antt =====
-- When a queue has a fallback.
use compliance_agent_platfor.Base.{String, ◌≡◌, refl, Bool, true, false, Option, none, some, arith}
use compliance_agent_platfor.Config.{Settings, Backend}
use compliance_agent_platfor.Error.{ok}
use compliance_agent_platfor.Outside.{Outside, nim_model}
use compliance_agent_platfor.Llm.{
  ResolvedBackend, FakeProfile, fake_profiles, resolve_chat_model, lookup, routed, by_policy,
  by_profile, set_profile, bedrock_of, chosen,
}

-- The routing that gives a fallback.
pub record FallsBack (o : Outside) (s : Settings) (queue : String)
    (primary fallback : ResolvedBackend) : Type 0 where
  pub not_faked : set_profile o.cap_fake_model ≡ none
  pub to_nim : lookup queue s.llm_routing_policy ≡ some Backend.nim
  pub enabled : s.bedrock_fallback_enabled ≡ true
  pub from_nim : primary.model ≡ nim_model
  pub to_bedrock : fallback ≡ bedrock_of s

by_profile-alone :
    (profile : String) (p : Option FakeProfile) (primary fallback : ResolvedBackend)
    → ¬ (by_profile profile p ≡ ok (primary, some fallback))
by_profile-alone profile none primary fallback q = absurd (ground arith)
by_profile-alone profile (some p) primary fallback q = absurd (ground arith)

module _ (o : Outside) (s : Settings) (queue : String) (primary fallback : ResolvedBackend) where
  by_policy-FallsBack :
      (b : Option Backend) (enabled : Bool)
      → set_profile o.cap_fake_model ≡ none
      → lookup queue s.llm_routing_policy ≡ b
      → s.bedrock_fallback_enabled ≡ enabled
      → ok (by_policy s (routed b)) ≡ ok (primary, some fallback)
      → FallsBack o s queue primary fallback
  by_policy-FallsBack none enabled f p e q = absurd (ground arith)
  by_policy-FallsBack (some Backend.bedrock) enabled f p e q = absurd (ground arith)
  by_policy-FallsBack (some Backend.nim) false f p e q = absurd (ground arith)
  by_policy-FallsBack (some Backend.nim) true f p e q = record {
    not_faked = f;
    to_nim = p;
    enabled = e;
    from_nim = ground arith;
    to_bedrock = ground arith;
  }

  chosen-FallsBack :
      (choice : Option String)
      → set_profile o.cap_fake_model ≡ choice
      → chosen s queue choice ≡ ok (primary, some fallback)
      → FallsBack o s queue primary fallback
  chosen-FallsBack none f q =
      by_policy-FallsBack (lookup queue s.llm_routing_policy) s.bedrock_fallback_enabled f refl refl
        q
  chosen-FallsBack (some profile) f q =
      absurd (by_profile-alone profile (lookup profile fake_profiles) primary fallback q)

  -- A queue resolves to a model with a fallback only if no fake model is configured, the policy routes
  -- the queue to NIM and the fallback is enabled; then the primary is the NIM model and the fallback
  -- the Bedrock model.
  pub resolve_chat_model-FallsBack :
      resolve_chat_model o s queue ≡ ok (primary, some fallback)
      → FallsBack o s queue primary fallback
  unfolding resolve_chat_model
  resolve_chat_model-FallsBack = chosen-FallsBack (set_profile o.cap_fake_model) refl
