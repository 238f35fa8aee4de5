-- ===== src/Exec/Runs.antt =====
-- How an action runs from one world, by the result of its first part.
use compliance_agent_platfor.Base.{◌≡◌, ap}
use compliance_agent_platfor.Error.{Exn, Result, ok, err}
use compliance_agent_platfor.Exec.{World, Exec, lift, catch, handled, continue, ◌>>=◌}

module _ {A B : Type 0} (m : Exec A) (f : A → Exec B) (w w' : World) where
  pub runs-ok : (a : A) → m w ≡ (ok a, w') → (m >>= f) w ≡ f a w'
  unfolding ◌>>=◌
  runs-ok a q = ap (λ p. continue f p.0 p.1) q

  pub runs-err : (e : Exn) → m w ≡ (err e, w') → (m >>= f) w ≡ (err e, w')
  unfolding ◌>>=◌
  runs-err e q = ap (λ p. continue f p.0 p.1) q

module _ {A : Type 0} (m : Exec A) (handler : Exn → Exec A) (w w' : World) where
  pub catch-ok : (a : A) → m w ≡ (ok a, w') → catch m handler w ≡ (ok a, w')
  unfolding catch
  catch-ok a q = ap (λ p. handled handler p.0 p.1) q

  pub catch-err : (e : Exn) → m w ≡ (err e, w') → catch m handler w ≡ handler e w'
  unfolding catch
  catch-err e q = ap (λ p. handled handler p.0 p.1) q

module _ {A B : Type 0} where
  pub lift-ok :
      (r : Result A) (f : A → Exec B) (a : A) (w : World) → r ≡ ok a → (lift r >>= f) w ≡ f a w
  unfolding ◌>>=◌
  lift-ok r f a w q = ap (λ p. continue f p w) q

  pub lift-err :
      (r : Result A) (f : A → Exec B) (e : Exn) (w : World)
      → r ≡ err e
      → (lift r >>= f) w ≡ (err e, w)
  unfolding ◌>>=◌
  lift-err r f e w q = ap (λ p. continue f p w) q
