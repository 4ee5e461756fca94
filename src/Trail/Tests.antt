-- ===== src/Trail/Tests.antt =====
-- A trail of two batches that _write_audit has written.
use project_main.Prelude.{
  ℕ, ◌≡◌, refl, ◌≢◌, String, true, false, Option, some, List, [], ◌∷◌, keep, length, ok, str_eq,
  str_eq_iff, false-ne-true, ◌∙◌, sym,
}
use project_main.Trail.{agent, AuditTrail, AuditWrite, of_batch, write_all, verify_chain}
use project_main.Trail.Verify.{verify_chain-write_all}

abbrev call : ℕ → String → AuditWrite
call b h = record {
  batch_id = some b;
  node_type = agent;
  node_name = "compliance";
  input_hash = "in";
  output_hash = h;
  duration_ms = 5;
}

abbrev calls : List AuditWrite
calls = call 7 "a" ∷ call 8 "b" ∷ call 7 "c" ∷ []

abbrev row : ℕ → Option String → String → AuditTrail
row n p h = record {
  batch_id = 7;
  step_number = n;
  node_type = agent;
  node_name = "compliance";
  input_hash = "in";
  output_hash = h;
  prev_hash = p;
  duration_ms = 5;
}

verify_chain-write_all_example :
    verify_chain (7 ∷ 8 ∷ []) (write_all [] calls) 7
    ≡ ok (record {
      batch_id = 7;
      total_steps = length (keep (of_batch 7) (write_all [] calls));
      chain_valid = true;
      breaks = [];
      warnings = [];
    })
verify_chain-write_all_example = verify_chain-write_all (7 ∷ 8 ∷ []) calls 7 refl

different : (g h : String) → str_eq g h ≡ false → g ≢ h
different g h e same = false-ne-true (sym e ∙ (str_eq_iff g h).1 same)
