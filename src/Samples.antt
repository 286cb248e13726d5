-- ===== src/Samples.antt =====
-- Concrete workflow data that the tests share.
use sovereign_ai.Prelude.{List, [], ◌∷◌, none, some, String, false}
use sovereign_ai.Prelude.Int.{pos}
use sovereign_ai.Api.{
  agent, utility, human_gate, ContractReference, ArtifactReference, StepConfig, UidReference,
  StepAttempt, Artifact, succeeded, condition_true,
}

abbrev pub contract : String → ContractReference
contract name = record { name = name; version = "v1" }

abbrev pub input : String → ArtifactReference
input name = record { name = name; digest = ""; artifact_ref = none; producer_attempt_ref = "" }

abbrev pub author : StepConfig
author = record {
  requires_approval = none;
  name = "test-author";
  kind = agent;
  utility = none;
  inputs = input "change-request" ∷ [];
  outputs = contract "test-change-set" ∷ [];
  max_attempts = pos 2;
  order = pos 1;
}

abbrev pub test : StepConfig
test = record {
  requires_approval = none;
  name = "test-candidate";
  kind = utility;
  utility = some "test.run";
  inputs = input "test-change-set" ∷ [];
  outputs = contract "test-report" ∷ [];
  max_attempts = pos 0;
  order = pos 2;
}

abbrev pub gate : StepConfig
gate = record {
  requires_approval = none;
  name = "review";
  kind = human_gate;
  utility = none;
  inputs = input "test-report" ∷ [];
  outputs = [];
  max_attempts = pos 0;
  order = pos 3;
}

abbrev pub merge : StepConfig
merge = record {
  requires_approval = some (record { step = "review"; subject = "test-report" });
  name = "merge";
  kind = utility;
  utility = some "git.mergeRequest";
  inputs = input "test-report" ∷ [];
  outputs = [];
  max_attempts = pos 1;
  order = pos 4;
}

abbrev pub canonical : List StepConfig
canonical = author ∷ test ∷ gate ∷ merge ∷ []

abbrev pub workflow_ref : UidReference
workflow_ref = record { name = "wf"; uid = "uid-wf" }

-- The attempt of test-candidate that succeeded, and its report.
abbrev pub tested : StepAttempt
tested = record {
  name = "wf-test-candidate-1";
  spec = record {
    workflow_ref = workflow_ref;
    step_name = "test-candidate";
    retry_number = pos 1;
    workflow_attempt = pos 1;
    kind = utility;
  };
  status = record {
    phase = succeeded;
    execution_ref = none;
    failure_reason = "";
    retryable = false;
  };
}

abbrev pub report : Artifact
report = record {
  name = "report-1";
  uid = "uid-report-1";
  generation = pos 1;
  spec = record {
    workflow_ref = workflow_ref;
    producer_ref = record { kind = "StepAttempt"; name = "wf-test-candidate-1" };
    contract = contract "test-report";
    digest = "sha256:1";
    claims = none;
  };
  status = record {
    observed_generation = pos 1;
    phase = succeeded;
    valid = some (record { status = condition_true; observed_generation = pos 1 });
  };
}

abbrev pub pinned_report : ArtifactReference
pinned_report = record {
  name = "test-report";
  digest = "sha256:1";
  artifact_ref = some (record { name = "report-1"; uid = "uid-report-1" });
  producer_attempt_ref = "wf-test-candidate-1";
}
