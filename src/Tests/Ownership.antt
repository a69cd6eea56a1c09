-- ===== src/Tests/Ownership.antt =====
-- The theorems on the ownership manager at a concrete store.
use patch_loop.Services.Ownership.Owned.{acquire-owned}
use patch_loop.Store.Leases.Expiry.{IsKeyed}
use patch_loop.Store.State.{Store}
use patch_loop.Common.Dict.{insert, lookup, values}
use patch_loop.Services.Upkeep.{assert_owned}
use patch_loop.Execution.Commands.{ManagedCommand, ManagedCommandStatus}
use patch_loop.Execution.Leases.{Execution, is_active_status, ExecutionStatus}
use patch_loop.Services.Ownership.Acquired.{acquire_releases}
use patch_loop.Services.Ownership.{
  acquire_workspace, Acquisition, ExecutionOwnership, Reconciled, Scope, acquire, candidate_of,
  lease_of,
}
use patch_loop.Contracts.{err, ok, value_error}
use patch_loop.Common.{false, any, keep, arith, none, refl, some, ◌≡◌}
use patch_loop.Samples.{env, store}

-- A new owner comes when the lease of the sample's execution has run out.
abbrev takeover : Acquisition
takeover = record {
  session_id = 1;
  task_id = 2;
  owner_id = 16;
  workspace = some (8, 8);
  expected_version = none;
  new_id = 15;
  execution_token = 17;
  workspace_token = 77;
  ttl = 60;
}

-- The same with a factory that gives no token for the workspace.
abbrev without_token : Acquisition
without_token = record takeover { workspace_token = 0 }

abbrev cleanup : Scope → ManagedCommand → Reconciled
cleanup scope c = Reconciled.reconciled (record c { status = ManagedCommandStatus.terminated })

sample-Keyed : IsKeyed store
unfolding lookup
sample-Keyed = (refl, refl, tt)

new_key : lookup 15 store.executions ≡ none
unfolding lookup
new_key = refl

abbrev failed : Store
failed = (acquire env without_token cleanup 40 store).1

fails : (acquire env without_token cleanup 40 store).0 ≡ err value_error
unfolding acquire acquire_workspace lookup keep values insert any
fails = refl

abbrev given_back : Execution
given_back = record (candidate_of without_token 40) {
  generation = 2;
  status = ExecutionStatus.released;
  version = 2;
}

stored_back : lookup 15 failed.executions ≡ some given_back
unfolding acquire acquire_workspace lookup keep values insert any
stored_back = refl

acquire_releases_example : is_active_status given_back.status ≡ false
acquire_releases_example =
    acquire_releases env without_token cleanup 40 store value_error given_back sample-Keyed new_key
      (omega arith) fails stored_back

abbrev taken : ExecutionOwnership
taken = record {
  execution = record (candidate_of takeover 40) {
    generation = 2;
    status = ExecutionStatus.running;
  };
  workspace_lease =
      some (record (lease_of takeover 8 8 (candidate_of takeover 40)) { generation = 2 });
}

abbrev after : Store
after = (acquire env takeover cleanup 40 store).1

succeeds : acquire env takeover cleanup 40 store ≡ (ok taken, after)
unfolding acquire acquire_workspace lookup keep values insert any
succeeds = refl

acquire-owned_example : assert_owned env taken 99 after ≡ (ok tt, after)
acquire-owned_example =
    acquire-owned env takeover cleanup 40 store 99 sample-Keyed succeeds (omega arith)
