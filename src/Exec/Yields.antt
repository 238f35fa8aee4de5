-- ===== src/Exec/Yields.antt =====
-- What holds of the value that an action returns, one rule for each way to build an action.
use compliance_agent_platfor.Base.{◌≡◌, refl, subst, Bool, true, false, if◌then◌else◌, arith}
use compliance_agent_platfor.Error.{Exn, Result, ok, err}
use compliance_agent_platfor.Exec.{World, Exec, pure, raise, lift, catch, handled, continue, ◌>>=◌}

-- Whenever `m` returns, `P` holds of what it returns.
pub record Yields {A : Type 0} (P : A → Type 0) (m : Exec A) : Type 0 where
  pub at : (w : World) (a : A) → (m w).0 ≡ ok a → P a

pub ok_injective : {A : Type 0} (a b : A) → ok a ≡ ok b → a ≡ b
ok_injective a b e = cc

module _ {A : Type 0} {P : A → Type 0} where
  pub Yields-pure : (a : A) → P a → Yields P (pure a)
  unfolding pure
  Yields-pure a h = record { at = λ w b e. subst P (ok_injective a b e) h }

  pub Yields-raise : (e : Exn) → Yields P (raise e)
  unfolding raise
  Yields-raise e = record { at = λ w b q. absurd (ground arith) }

  pub Yields-if :
      (b : Bool) (m n : Exec A)
      → (b ≡ true → Yields P m)
      → (b ≡ false → Yields P n)
      → Yields P (if b then m else n)
  Yields-if true m n km kn = km refl
  Yields-if false m n km kn = kn refl

  catch_step :
      (w : World) (r : Result A) (handler : Exn → Exec A) (b : A)
      → ((a : A) → r ≡ ok a → P a)
      → ((e : Exn) → Yields P (handler e))
      → (handled handler r w).0 ≡ ok b
      → P b
  catch_step w (ok a) handler b y k q = y b q
  catch_step w (err e) handler b y k q = (k e).at w b q

  pub Yields-catch :
      (m : Exec A) (handler : Exn → Exec A)
      → Yields P m
      → ((e : Exn) → Yields P (handler e))
      → Yields P (catch m handler)
  unfolding catch
  Yields-catch m handler y k = record {
    at = λ w b q. catch_step (m w).1 (m w).0 handler b (y.at w) k q;
  }

module _ {A B : Type 0} {P : B → Type 0} where
  pub Yields-lift :
      (r : Result A) (f : A → Exec B)
      → ((a : A) → r ≡ ok a → Yields P (f a))
      → Yields P (lift r >>= f)
  unfolding ◌>>=◌
  Yields-lift (ok a) f k = record { at = (k a refl).at }
  Yields-lift (err e) f k = record { at = λ w b q. absurd (ground arith) }

  bind_step :
      (w : World) (r : Result A) (f : A → Exec B) (b : B)
      → ((a : A) → Yields P (f a))
      → (continue f r w).0 ≡ ok b
      → P b
  bind_step w (ok a) f b k q = (k a).at w b q
  bind_step w (err e) f b k q = absurd (ground arith)

  pub Yields-bind : (m : Exec A) (f : A → Exec B) → ((a : A) → Yields P (f a)) → Yields P (m >>= f)
  unfolding ◌>>=◌
  Yields-bind m f k = record { at = λ w b q. bind_step (m w).1 (m w).0 f b k q }

  then_step :
      {Q : A → Type 0} (w : World) (r : Result A) (f : A → Exec B) (b : B)
      → ((a : A) → r ≡ ok a → Q a)
      → ((a : A) → Q a → Yields P (f a))
      → (continue f r w).0 ≡ ok b
      → P b
  then_step w (ok a) f b y k q = (k a (y a refl)).at w b q
  then_step w (err e) f b y k q = absurd (ground arith)

  pub Yields-then :
      {Q : A → Type 0} (m : Exec A) (f : A → Exec B)
      → Yields Q m
      → ((a : A) → Q a → Yields P (f a))
      → Yields P (m >>= f)
  unfolding ◌>>=◌
  Yields-then m f y k = record { at = λ w b q. then_step (m w).1 (m w).0 f b (y.at w) k q }

module _ {A : Type 0} where
  pub Yields-any : (m : Exec A) → Yields (λ _. Unit {0}) m
  Yields-any m = record { at = λ _ _ _. tt }

  pub Yields-both :
      {P Q : A → Type 0} (m : Exec A) → Yields P m → Yields Q m → Yields (λ a. P a × Q a) m
  Yields-both m p q = record { at = λ w a e. (p.at w a e, q.at w a e) }
