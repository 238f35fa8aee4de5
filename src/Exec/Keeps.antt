-- ===== src/Exec/Keeps.antt =====
-- Relations between the worlds before and after an action, one rule for each way to build one.
use compliance_agent_platfor.Base.{Bool, true, false, if◌then◌else◌}
use compliance_agent_platfor.Error.{Exn, Result, ok, err}
use compliance_agent_platfor.Exec.{World, Exec, pure, raise, lift, catch, handled, continue, ◌>>=◌}

-- A relation that an action may be composed of.
pub record IsPreorder (R : World → World → Type 0) : Type 0 where
  pub reflexive : (w : World) → R w w
  pub transitive : (u v w : World) → R u v → R v w → R u w

-- `R` holds between the worlds before and after `m`, whether it returns or raises.
pub record Keeps (R : World → World → Type 0) {A : Type 0} (m : Exec A) : Type 0 where
  pub at : (w : World) → R w (m w).1

module _ {R : World → World → Type 0} (p : IsPreorder R) {A : Type 0} where
  pub Keeps-pure : (a : A) → Keeps R (pure a)
  unfolding pure
  Keeps-pure a = record { at = λ w. p.reflexive w }

  pub Keeps-raise : (e : Exn) → Keeps R (raise {A = A} e)
  unfolding raise
  Keeps-raise e = record { at = λ w. p.reflexive w }

  pub Keeps-lift : (r : Result A) → Keeps R (lift r)
  unfolding lift
  Keeps-lift r = record { at = λ w. p.reflexive w }

  pub Keeps-if : (b : Bool) (m n : Exec A) → Keeps R m → Keeps R n → Keeps R (if b then m else n)
  Keeps-if true m n km kn = km
  Keeps-if false m n km kn = kn

  catch_step :
      (u v : World) (r : Result A) (handler : Exn → Exec A)
      → R u v
      → ((e : Exn) → Keeps R (handler e))
      → R u (handled handler r v).1
  catch_step u v (ok a) handler k kh = k
  catch_step u v (err e) handler k kh = p.transitive u v _ k ((kh e).at v)

  pub Keeps-catch :
      (m : Exec A) (handler : Exn → Exec A)
      → Keeps R m
      → ((e : Exn) → Keeps R (handler e))
      → Keeps R (catch m handler)
  unfolding catch
  Keeps-catch m handler km kh = record {
    at = λ w. catch_step w (m w).1 (m w).0 handler (km.at w) kh;
  }

module _ {R : World → World → Type 0} (p : IsPreorder R) {A B : Type 0} where
  bind_step :
      (u v : World) (r : Result A) (f : A → Exec B)
      → R u v
      → ((a : A) → Keeps R (f a))
      → R u (continue f r v).1
  bind_step u v (ok a) f k kf = p.transitive u v _ k ((kf a).at v)
  bind_step u v (err e) f k kf = k

  pub Keeps-bind :
      (m : Exec A) (f : A → Exec B) → Keeps R m → ((a : A) → Keeps R (f a)) → Keeps R (m >>= f)
  unfolding ◌>>=◌
  Keeps-bind m f km kf = record { at = λ w. bind_step w (m w).1 (m w).0 f (km.at w) kf }
