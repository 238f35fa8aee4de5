-- ===== src/Graph/Trail.antt =====
-- The audit trail of the nodes, their wrapper and a run: rows are only added, and the table stays one
-- chain, whatever the node does.
pub mod Nodes
pub mod Quiet
pub mod Runs
use compliance_agent_platfor.Base.{
  ℕ, zero, suc, String, ◌≡◌, refl, sym, ap, ◌∙◌, List, [], ◌∷◌, ◌++◌, append_assoc, append-nil,
  Option, none, some,
}
use compliance_agent_platfor.Error.{Exn, Result, ok, err}
use compliance_agent_platfor.Audit.Log.{AuditRow, AuditRecord, Hasher, new_row, write_audit}
use compliance_agent_platfor.Audit.Append.{IsSound, write_audit-IsSound}
use compliance_agent_platfor.Outside.{Outside, ChatModel}
use compliance_agent_platfor.Exec.{World, Exec, ModelCall, audit_row, read_clock, note_call}
use compliance_agent_platfor.Exec.Keeps.{
  IsPreorder, Keeps, Keeps-pure, Keeps-raise, Keeps-lift, Keeps-if, Keeps-catch, Keeps-bind,
}

-- Rows were added behind those that were there, and a sound table is sound still.
pub record Appends (h : Hasher) (v w : World) : Type 0 where
  pub more : List AuditRow
  pub grown : w.audit.rows ≡ v.audit.rows ++ more
  pub sound : IsSound h v.audit → IsSound h w.audit

module _ (h : Hasher) where
  unchanged : (v w : World) → w.audit ≡ v.audit → Appends h v w
  unchanged v w e = record { more = []; grown = rw (e, append-nil); sound = λ s. rw e s }

  Appends-trans : (u v w : World) → Appends h u v → Appends h v w → Appends h u w
  Appends-trans u v w a b = record {
    more = a.more ++ b.more;
    grown = rw (b.grown, a.grown) (append_assoc u.audit.rows a.more b.more);
    sound = λ s. b.sound (a.sound s);
  }

  pub Appends-preorder : IsPreorder (Appends h)
  Appends-preorder = record { reflexive = λ w. unchanged w w refl; transitive = Appends-trans }

module _ (o : Outside) where
  pub audit_row-Appends : (r : AuditRecord) → Keeps (Appends o.hasher) (audit_row o r)
  unfolding audit_row write_audit
  audit_row-Appends r = record {
    at = λ w. record {
      more = new_row o.hasher (o.now w.ticks) r w.audit ∷ [];
      grown = refl;
      sound = write_audit-IsSound o.hasher (o.now w.ticks) r w.audit;
    };
  }

  pub read_clock-Appends : Keeps (Appends o.hasher) read_clock
  unfolding read_clock
  read_clock-Appends = record { at = λ w. unchanged o.hasher w _ refl }

  pub note_call-Appends : (c : ModelCall) → Keeps (Appends o.hasher) (note_call c)
  unfolding note_call
  note_call-Appends c = record { at = λ w. unchanged o.hasher w _ refl }
