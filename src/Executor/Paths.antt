-- ===== src/Executor/Paths.antt =====
-- The files of a run (`_record_path`, `_result_path` and `_cancel_path` of
-- src/axcalib/runtime/execution.py), below the executor's root.
use axcalib.Prelude.{String, ◌+++◌}

unfoldable pub record_path : String → String
record_path run_id = "run-" +++ run_id +++ ".json"

unfoldable pub result_path : String → String
result_path run_id = "run-" +++ run_id +++ ".result.json"

unfoldable pub cancel_path : String → String
cancel_path run_id = "run-" +++ run_id +++ ".cancel.json"
