-- ===== src/Samples.antt =====
-- A small store of `FakeStore` (src/patchloop/persistence_contracts.py) for the tests: one session
-- with one task, an execution whose lease runs out at 30, and a prepared effect.
use Prim.Native.Nat.{◌*◌}
use patch_loop.PromptCache.Publication.{
  Category, Fingerprints, MemoryDeltaPublisher, Message, Payload, items, listed,
}
use patch_loop.Contracts.{LeaseGuard}
use patch_loop.Session.{Session, SessionStatus}
use patch_loop.Store.State.{Env, Store}
use patch_loop.Execution.Leases.{Execution, ExecutionStatus, WorkspaceLease}
use patch_loop.Execution.Effects.{Decision, Effect, EffectStatus}
use patch_loop.Store.Effects.{ClaimConditions}
use patch_loop.Domain.{Task, TaskOutcome, TaskRuntimeCondition, TaskStatus}
use patch_loop.Common.{Key, List, ℕ, [], false, none, some, true, ◌+◌, ◌∷◌}
use patch_loop.Execution.Approvals.{Approval, ApprovalStatus}

abbrev pub env : Env
env = record {
  hashing = record {
    hash_arguments = λ k. k + 1000;
    hash_content = λ c. c.arguments_summary + 2000;
  };
  journal_event_id = λ type entity revision. entity + 3000;
  journal_body = λ type entity revision. entity + 5000;
  tool_result_ref = λ task call. task + call + 4000;
}

abbrev pub session : Session
session = record {
  id = 1;
  workspace_ref = 8;
  status = SessionStatus.open_session;
  active_task_id = some 2;
  config_version = 50;
  version = 1;
  event_sequence = 0;
}

abbrev pub task : Task
task = record {
  id = 2;
  repository = 8;
  session_id = some 1;
  status = TaskStatus.running;
  outcome = TaskOutcome.active;
  runtime_condition = TaskRuntimeCondition.running;
  version = 4;
  result = none;
  error = none;
  body = 0;
}

abbrev pub execution : Execution
execution = record {
  id = 5;
  session_id = 1;
  task_id = 2;
  owner_id = 6;
  lease_token = 7;
  generation = 1;
  lease_expires_at = 30;
  status = ExecutionStatus.running;
  version = 1;
}

abbrev pub candidate : Execution
candidate = record execution {
  id = 15;
  owner_id = 16;
  lease_token = 17;
  generation = 0;
  lease_expires_at = 100;
}

abbrev pub guard : LeaseGuard
guard = record { execution_id = 5; task_id = 2; token = 7; generation = 1; owner_id = 6 }

abbrev pub effect : Effect
effect = record {
  id = 3;
  task_id = 2;
  step_id = 20;
  batch_position = 0;
  provider_call_id = 21;
  retry_of_effect_id = none;
  tool_name = 22;
  action_kind = 23;
  arguments_summary = 24;
  arguments_fingerprint = 25;
  policy_result = record {
    decision = some Decision.require_approval;
    approval_required = true;
    other = 0;
  };
  preparation_error = none;
  file_preconditions = 26;
  credential_bindings = 27;
  redacted_argument_paths = 28;
  status = EffectStatus.prepared;
  approval_id = some 4;
  approval_consumed = false;
  reconciliation_evidence = 0;
  result_ref = none;
  observation_ref = none;
  version = 3;
}

abbrev pub approval : Approval
approval = record {
  id = 4;
  effect_id = 3;
  effect_fingerprint = 2024;
  arguments_fingerprint = 25;
  workspace_ref = 8;
  action_summary = 29;
  resource_summary = 31;
  policy_version = 40;
  config_version = 50;
  status = ApprovalStatus.approved;
  decision_source = some 60;
  decided_at = some 10;
  version = 2;
  created_at = 5;
}

abbrev pub request : Approval
request = record approval {
  status = ApprovalStatus.pending;
  decision_source = none;
  decided_at = none;
  version = 1;
}

abbrev pub writer : WorkspaceLease
writer = record {
  workspace_id = 8;
  repository_path = 8;
  session_id = 1;
  task_id = 2;
  execution_id = 5;
  owner_id = 6;
  lease_token = 70;
  generation = 1;
  lease_expires_at = 15;
}

abbrev pub no_conditions : ClaimConditions
no_conditions = record {
  effect_fingerprint = none;
  workspace_ref = none;
  policy_version = none;
  config_version = none;
  policy_decision = none;
  expected_input_sequence = none;
}

abbrev pub store : Store
store = record {
  sessions = (1, session) ∷ [];
  tasks = (2, task) ∷ [];
  turns = [];
  executions = (5, execution) ∷ [];
  workspace_leases = (8, writer) ∷ [];
  effects = (3, effect) ∷ [];
  approvals = (4, approval) ∷ [];
  controls = [];
  recoveries = [];
  checkpoints = [];
  events = [];
  tool_results = [];
  steps = [];
  managed_commands = [];
}

abbrev pub completed_task : Task
completed_task = record task {
  status = TaskStatus.completed;
  outcome = TaskOutcome.completed;
  runtime_condition = TaskRuntimeCondition.ended;
}

abbrev pub lost_task : Task
lost_task = record task { runtime_condition = TaskRuntimeCondition.recovery_required }

-- Fingerprints and sizes that tell the facts of small payloads apart.
abbrev pub text_code : List Key → ℕ
text_code [] = 0
text_code (x ∷ xs) = 1 + x + 10 * text_code xs

abbrev message_code : Message → Key
message_code (Message.snapshot p) = text_code (items p Category.facts)
message_code (Message.delta d) =
    1000
    + text_code (listed (d.added Category.facts))
    + 100 * text_code (listed (d.removed Category.facts))

abbrev pub fingerprints : Fingerprints
fingerprints = record {
  payload_fingerprint = λ p. text_code (items p Category.facts);
  message_fingerprint = message_code;
  estimate_tokens = λ m. 20;
}

abbrev pub facts_only : List Key → Payload
facts_only xs Category.facts = some xs
facts_only xs _ = none

abbrev pub no_publication : MemoryDeltaPublisher
no_publication = record { state = none; max_delta_tokens = 64 }
