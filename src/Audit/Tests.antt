-- ===== src/Audit/Tests.antt =====
-- Tables and writers on concrete rows, and the instances of the theorems on the audit log.
use compliance_agent_platfor.Base.{
  String, ◌≡◌, ◌↔◌, refl, true, false, List, [], ◌∷◌, none, some, last?, arith,
}
use compliance_agent_platfor.Audit.Log.{
  AuditRecord, AuditRow, AuditTable, chain_genesis, verify_chain, write_audit, chain_hash,
  chain_payload, tail_hash,
}
use compliance_agent_platfor.Audit.Chain.{Chained, verify_chain-verified_iff}
use compliance_agent_platfor.Audit.Append.{IsSound, write_audit-IsSound}
use compliance_agent_platfor.Audit.Verify.{BreaksAt, verify_chain-first_break}
use compliance_agent_platfor.Audit.Tamper.{SameHistory, verified-SameHistory}
use compliance_agent_platfor.Audit.Writers.Refinement.{
  IsExact, Reach-IsExact, Refines, Step-Refines,
}
use compliance_agent_platfor.Audit.Writers.{
  idle, locked, tail_read, inserted, System, Step, take_lock, read_tail, insert, commit, rollback,
  Reach, here, next, IsSafe, set_phase, Reach-verified,
}
use compliance_agent_platfor.Graph.Context.{row}
use compliance_agent_platfor.Samples.{hasher}

abbrev no_rows : AuditTable
no_rows = record { rows = []; next_id = 1 }

no_rows-IsSound : IsSound hasher no_rows
no_rows-IsSound = record { chained = tt; ordered = omega arith }

abbrev first : AuditRecord
first = row "A-1" "intake" "system" "node_completed"

abbrev second : AuditRecord
second = row "A-2" "intake" "system" "node_completed"

abbrev one_row : AuditTable
one_row = write_audit hasher 10 first no_rows

abbrev two_rows : AuditTable
two_rows = write_audit hasher 11 second one_row

one_row-IsSound : IsSound hasher one_row
one_row-IsSound = write_audit-IsSound hasher 10 first no_rows no_rows-IsSound

write_audit-IsSound_example : IsSound hasher two_rows
write_audit-IsSound_example = write_audit-IsSound hasher 11 second one_row one_row-IsSound

verify_chain-verified_iff_example :
    ((verify_chain hasher two_rows.rows chain_genesis).verified ≡ true)
    ↔ Chained hasher chain_genesis two_rows.rows
verify_chain-verified_iff_example = verify_chain-verified_iff hasher two_rows.rows chain_genesis

-- The alert of the second row is renamed behind the log's back.
abbrev rename : String → List AuditRow → List AuditRow
rename id [] = []
rename id (r ∷ []) = record r { entry = record (r.entry) { alert_id = id } } ∷ []
rename id (r ∷ rows) = r ∷ rename id rows

abbrev tampered : List AuditRow
tampered = rename "A-1" two_rows.rows

tampered-refused : (verify_chain hasher tampered chain_genesis).verified ≡ false
unfolding verify_chain write_audit chain_hash chain_payload
tampered-refused = refl

tampered-at : (verify_chain hasher tampered chain_genesis).broken_at_id ≡ some 2
unfolding verify_chain write_audit chain_hash chain_payload
tampered-at = refl

verify_chain-first_break_example :
    (r : AuditRow) × ((verify_chain hasher tampered chain_genesis).broken_at_id ≡ some r.id)
    × BreaksAt hasher chain_genesis tampered r
verify_chain-first_break_example =
    verify_chain-first_break hasher tampered chain_genesis tampered-refused

-- A restored copy of the table, whose rows have other ids.
abbrev copied : AuditTable
copied =
    write_audit hasher 11 second (write_audit hasher 10 first (record { rows = []; next_id = 40 }))

two_rows-verified : (verify_chain hasher two_rows.rows chain_genesis).verified ≡ true
unfolding verify_chain write_audit chain_hash chain_payload
two_rows-verified = refl

copied-verified : (verify_chain hasher copied.rows chain_genesis).verified ≡ true
unfolding verify_chain write_audit chain_hash chain_payload
copied-verified = refl

one_head : tail_hash (last? two_rows.rows) ≡ tail_hash (last? copied.rows)
unfolding write_audit
one_head = refl

verified-SameHistory_example : SameHistory hasher chain_genesis two_rows.rows copied.rows
verified-SameHistory_example =
    verified-SameHistory hasher two_rows.rows copied.rows two_rows-verified copied-verified one_head

-- One writer crashes behind its insert, and another writes its row.
abbrev at_rest : System
at_rest = record { table = no_rows; lock = none; phase = λ w. idle }

abbrev started : System
started = record at_rest { lock = some 1; phase = set_phase 1 (locked first) at_rest }

abbrev has_read : System
has_read = record started { phase = set_phase 1 (tail_read first chain_genesis) started }

abbrev has_inserted : System
has_inserted = record {
  table = record { rows = []; next_id = 2 };
  lock = some 1;
  phase = set_phase 1 (inserted 1 10 first chain_genesis) has_read;
}

abbrev crashed : System
crashed = record has_inserted { lock = none; phase = set_phase 1 idle has_inserted }

abbrev other_started : System
other_started = record crashed { lock = some 2; phase = set_phase 2 (locked second) crashed }

abbrev other_read : System
other_read = record other_started {
  phase = set_phase 2 (tail_read second chain_genesis) other_started;
}

abbrev other_inserted : System
other_inserted = record {
  table = record { rows = []; next_id = 3 };
  lock = some 2;
  phase = set_phase 2 (inserted 2 11 second chain_genesis) other_read;
}

abbrev committed : System
committed = record {
  table = record {
    rows = (write_audit hasher 11 second (record { rows = []; next_id = 2 })).rows;
    next_id = 3;
  };
  lock = none;
  phase = set_phase 2 idle other_inserted;
}

at_rest-IsSafe : IsSafe hasher at_rest
at_rest-IsSafe = record { sound = no_rows-IsSound; fits = λ w. tt }

one_rolled_back : Reach hasher at_rest other_inserted
unfolding write_audit
one_rolled_back =
    next
      (next
        (next
          (next
            (next
              (next (next here (take_lock 1 first refl refl refl)) (read_tail 1 first refl refl))
              (insert 1 10 first chain_genesis refl refl))
            (rollback 1 refl refl))
          (take_lock 2 second refl refl refl))
        (read_tail 2 second refl refl))
      (insert 2 11 second chain_genesis refl refl)

committing : Step hasher other_inserted committed
unfolding write_audit
committing = commit 2 2 11 second chain_genesis refl refl

Reach-verified_example : (verify_chain hasher committed.rows chain_genesis).verified ≡ true
Reach-verified_example =
    Reach-verified hasher at_rest committed at_rest-IsSafe (next one_rolled_back committing)

at_rest-IsExact : IsExact hasher at_rest
at_rest-IsExact = record { safe = at_rest-IsSafe; last = λ w. tt }

-- The id that the first writer took is lost, and the second writer's row has the next one.
Step-Refines_example : Refines hasher other_inserted committed committing
Step-Refines_example =
    Step-Refines hasher other_inserted committed
      (Reach-IsExact hasher at_rest other_inserted at_rest-IsExact one_rolled_back) committing
