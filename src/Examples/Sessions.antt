-- ===== src/Examples/Sessions.antt =====
-- A session of a host and adapters, and the properties of sessions on it.
use agent_projects.Prelude.{
  ◌≢◌, ◌≤◌, ◌≡◌, refl, true, false, not, none, some, List, [], ◌∷◌, length, is_some, decimal, fmt,
}
use agent_projects.Errors.{
  pure, ◌>>=◌, raise, throw, gets, handle, try_except, try_exception, proceed,
}
use agent_projects.RunModels.{
  verify, review_repair, max_declared_attempt, is_terminal, node_eq, node_name,
}
use agent_projects.Outcomes.{as_check_summary, detail_get, phase_eq}
use agent_projects.Checkpoints.{
  Save, RunRow, Store, find_run, snapshot_from_row, insert_run, create_run, max_sequence, matches,
  find_checkpoint, update_run, checkpoint_of, is_storable, get_checkpoint, of_run, list_checkpoints,
}
use agent_projects.Checkpoints
use agent_projects.Engine.World.{on_store, now, now_if, load_run, save_checkpoint}
use agent_projects.Engine.Cursor.{approved}
use agent_projects.Engine.Records.{max_repair_attempts, max_review_repairs}
use agent_projects.Engine.Executing.{AreCareful}
use agent_projects.Engine.Sessions.{
  Call, starting, approving, call, session, empty_world, approval_gate, repair_budget,
  ended_iff_no_node,
}
use agent_projects.Errors.{
  type_name, pure, throw, raise, gets, handle, try_except, try_exception, proceed, ◌>>=◌,
}
use agent_projects.RunModels.{node_name, node_eq}
use agent_projects.Outcomes.{detail_get, as_check_summary, phase_eq}
use agent_projects.Checkpoints.{
  find_run, snapshot_from_row, insert_run, create_run, max_sequence, matches, find_checkpoint,
  update_run, checkpoint_of, is_storable, get_checkpoint, of_run, list_checkpoints,
}
use agent_projects.Engine.World.{on_store, now, now_if, load_run, save_checkpoint}
use agent_projects.Engine.Records.{
  successor, node_attempt, idempotency_key, previous_result, usage_or_raise, accumulate_usage,
  or_text, option_or_text, str_take, bounded_error, count_node, count_repair, fits, map_text,
  within_limits, timed, stripped, model_validate, updated_record, status_when_started,
  started_at_or_now, record_for_started_node, save_for_node,
}
use agent_projects.Engine.Complete.{
  is_recoverable, failure_status_of, is_hex, base_commit_of, latest_compatible_snapshot,
  save_completed, save_failed_outcome, complete_plan, complete_verification, succeed,
  complete_rejected, complete_outcome, complete_raw, complete_node, fail_node,
}
use agent_projects.Engine.Approval.{
  strip_reason, node_or, complete_approval, start_node, pause, pause_or_approve,
  pause_or_auto_approve, cancel_snapshot, fail_without_node,
}
use agent_projects.Engine.Graph.{
  map_raw, invoke, without, run_operation, execute_node, route, graph_dispatch, graph_execute_node,
  run_graph, advance, is_active, resume, approve, cancel, is_new_run, new_run, start,
}
use agent_projects.Engine.Cursor.{approved}
use agent_projects.Engine.Sessions.{call, session}
use agent_projects.Examples.{host, operations, id, final_row}

careful : AreCareful operations
careful = record {
  prepares = record { at = λ c s inv. (inv, refl) };
  checks = record { at = λ c s inv. (inv, refl) };
  plans = record { at = λ c s inv. (inv, refl) };
  implements = record { at = λ c s inv. (inv, refl) };
  verifies = record { at = λ c s inv. (inv, refl) };
  repairs = record { at = λ c s inv. (inv, refl) };
  reviews = record { at = λ c s inv. (inv, refl) };
  review_repairs = record { at = λ c s inv. (inv, refl) };
  finalizes = record { at = λ c s inv. (inv, refl) };
}

-- A run is started and pauses; a person says yes, and it is resumed to its end.
abbrev calls : List Call
calls = starting id "/repo" "fix the bug" none false false ∷ approving id true none true ∷ []

final_found : find_run id (session host operations calls empty_world).store.runs ≡ some final_row
unfolding type_name pure throw raise gets handle try_except try_exception proceed ◌>>=◌ node_name
    node_eq detail_get as_check_summary phase_eq find_run snapshot_from_row insert_run create_run
    max_sequence matches find_checkpoint update_run checkpoint_of is_storable get_checkpoint of_run
    list_checkpoints on_store now now_if load_run save_checkpoint successor node_attempt
    idempotency_key previous_result usage_or_raise accumulate_usage or_text option_or_text str_take
    bounded_error count_node count_repair fits map_text within_limits timed stripped model_validate
    updated_record status_when_started started_at_or_now record_for_started_node save_for_node
    is_recoverable failure_status_of is_hex base_commit_of latest_compatible_snapshot save_completed
    save_failed_outcome complete_plan complete_verification succeed complete_rejected
    complete_outcome complete_raw complete_node fail_node strip_reason node_or complete_approval
    start_node pause pause_or_approve pause_or_auto_approve cancel_snapshot fail_without_node
    map_raw invoke without run_operation execute_node route graph_dispatch graph_execute_node
    run_graph advance is_active resume approve cancel is_new_run new_run start approved call session
    Checkpoints.load_run Checkpoints.save_checkpoint decimal fmt
final_found = refl

approval_gate_example :
    approved id (session host operations calls empty_world).store.checkpoints ≡ true
approval_gate_example = approval_gate host operations careful calls id final_row final_found refl

repair_budget_example :
    (final_row.run.metrics.repair_attempts ≤ max_repair_attempts)
    × (final_row.run.metrics.review_repairs ≤ max_review_repairs)
    × (length final_row.run.checks ≤ 2)
    × (node_attempt final_row.run verify ≤ max_declared_attempt)
    × (final_row.next_node ≢ some review_repair)
repair_budget_example = repair_budget host operations careful calls id final_row final_found

ended_iff_no_node_example : is_terminal final_row.run.status ≡ not (is_some final_row.next_node)
ended_iff_no_node_example = ended_iff_no_node host operations careful calls id final_row final_found
