-- ===== src/Exec.antt =====
-- Code with effects: it may write audit rows, read clocks, call models, and raise. What was written
-- before a raise stays written.
pub mod Keeps
pub mod Yields
pub mod Runs
use compliance_agent_platfor.Base.{ℕ, suc, String, List, [], ◌∷◌, ◌++◌}
use compliance_agent_platfor.Error.{Exn, Result, ok, err}
use compliance_agent_platfor.Audit.Log
use compliance_agent_platfor.Audit.Log.{AuditTable, AuditRecord}
use compliance_agent_platfor.Outside.{Outside, ChatModel}

-- The calls that reach a model, for statements about which are made.
pub data ModelCall : Type 0 where
  rail_call : ChatModel → String → ModelCall
  evaluate_call : ChatModel → String → ModelCall

pub record World : Type 0 where
  pub audit : AuditTable
  pub ticks : ℕ
  pub calls : List ModelCall

abbrev pub Exec : Type 0 → Type 0
Exec A = World → Result A × World

-- `time.monotonic()`, as the number of clock reads before it
unfoldable pub read_clock : Exec ℕ
read_clock w = (ok w.ticks, record w { ticks = suc w.ticks })

unfoldable pub note_call : ModelCall → Exec (Unit {0})
note_call c w = (ok tt, record w { calls = w.calls ++ c ∷ [] })

-- `write_audit(ctx.audit_conn, record)`, which reads the clock for `created_at`
unfoldable pub audit_row : Outside → AuditRecord → Exec (Unit {0})
audit_row o r w = (
  ok tt,
  record w { audit = Log.write_audit o.hasher (o.now w.ticks) r w.audit; ticks = suc w.ticks },
)

module _ {A : Type 0} where
  unfoldable pub pure : A → Exec A
  pure a w = (ok a, w)

  unfoldable pub raise : Exn → Exec A
  raise e w = (err e, w)

  unfoldable pub lift : Result A → Exec A
  lift r w = (r, w)

  abbrev pub handled : (Exn → Exec A) → Result A → World → Result A × World
  handled handler (ok a) w = (ok a, w)
  handled handler (err e) w = handler e w

  -- `try: m except Exception as e: handler(e)`
  unfoldable pub catch : Exec A → (Exn → Exec A) → Exec A
  catch m handler w = let (r, w') = m w in handled handler r w'

module _ {A B : Type 0} where
  abbrev pub continue : (A → Exec B) → Result A → World → Result B × World
  continue f (ok a) w = f a w
  continue f (err e) w = (err e, w)

  infixl 5 ◌>>=◌ ◌>>◌
  -- opening this opens the actions above too
  unfoldable pub ◌>>=◌ : Exec A → (A → Exec B) → Exec B
  unfolding pure raise lift catch read_clock note_call audit_row
  ◌>>=◌ m f w = let (r, w') = m w in continue f r w'

  abbrev pub ◌>>◌ : Exec A → Exec B → Exec B
  m >> k = m >>= λ _. k
