-- ===== src/Lib.antt =====
-- A model of the core of the SovereignAI control plane, the Go program that drives workflows of
-- agent, utility, approval and validation steps as Kubernetes custom resources.
--
-- How the parts interact. The workflow controller (Reconcile) walks the steps of a
-- SovereignWorkflow in order. For the active step it creates a StepAttempt, numbers it (State), and pins into it the accepted
-- artifacts that the step consumes (Inputs, over Artifacts and Steps). When the attempt fails it
-- decides between a new attempt, a rewind of the workflow and a failure (Steps). A workflow is
-- admitted only if the approvals that its steps require can be given (Approval). Each execution
-- that may write to the workflow's one workspace first acquires the workspace lease (Writer). An
-- inference request of an agent is placed on a model endpoint, evicts others, or waits (Admission),
-- and a placed one is entered into the endpoint's reservations (Reservations). An agent changes
-- files by an editor that leaves the checkout as it is and keeps an overlay (Editor, over Text and
-- Paths); the changes that it lists become an artifact.
--
-- The files and the code (paths from the repository's root):
--   Prelude    the names that all modules share, lists and signed integers over the native
--              numbers, the outcome `Result` of a function that returns a value and an error.
--   Api        internal/api/v1alpha1: the resource types, with the fields that the model reads.
--   State      internal/domain/state/state.go: the table `transitions`, ValidateTransition,
--              IsTerminal, ConditionStatus, NextAttemptNumber, NextRetryNumber.
--   Steps      stepIndex and decideFailure of internal/controllers/workflow/recovery.go,
--              findStep and nextStep of workflow_controller.go, and workflowInputProducer of
--              input_selection.go.
--   Approval   internal/api/v1alpha1/approval_binding.go: ValidateApprovalRequirements.
--   Artifacts  internal/artifacts/validator.go: ArtifactAccepted, ResolvePinnedInput.
--   Inputs     internal/controllers/workflow/input_selection.go: resolveStepInputs; Candidates has
--              inputCandidateForArtifact and Scan the loop over the artifacts.
--   Writer     internal/controllers/workspace_writer.go: AcquireWorkspaceWriter and
--              ReleaseWorkspaceWriter; Protocol composes any number of their runs, which
--              interleave at one lease, into a step relation, and Quiescence has
--              PodWriterQuiescent and JobWriterQuiescent.
--   Reconcile  internal/controllers/workflow/workflow_controller.go: Reconcile as a function from
--              what it reads to the action that it takes, finalStepOutputsAccepted, and the status
--              update of beginWorkflowRetry.
--   Admission  internal/inference/admission.go: Select and what it calls.
--   Reservations  internal/controllers/inference_lease_controller.go:
--              pruneEndpointReservations and the closures of bind and
--              removeEndpointReservation.
--   LeaseControl  the same file: Reconcile of an inference lease as a function to the action that
--              it ends in, admitSnapshots, snapshots and handleActionCreate.
--   Text       the byte strings of internal/workspaceeditor/editor.go: Go's strings.Replace, Count and
--              utf8.Valid, normalizeLineEndings and detectLineEnding.
--   Paths      normalizePath of the same file, with filepath.Clean of a relative path on Unix.
--   Editor     the rest of the file: Read; Writing has Write, Replace and Delete, Listing has
--              Changes; View is the map from paths to texts that Read shows.
--   Claims     ValidateClaims of internal/artifacts/claims.go and ValidateCriterionIdentities of
--              internal/artifactcontract/criteria.go.
--   Gate       the human gate: ValidateDomainBinding of internal/controllers/domain_authority.go,
--              and the checks of internal/controllers/approvalrequest_controller.go on a decision
--              and an attempt; Evidence has ResolveArtifactEvidence of input_evidence.go, Request
--              the controller's updates, and Runs composes them into sequences of writes.
--              Authority and Permission have ResolveRequiredApproval and pinnedApprovalSubject of
--              internal/controllers/approval_binding.go, Operation its ValidateOperationApproval.
--   Samples    data that the tests share.
--
-- Conventions. An index -1, a nil pointer and a missing map entry are `none`. An `error` is a
-- constructor that keeps the names in the message. An int32 or int64 is an integer whose
-- arithmetic is followed by the wrap `i32` or `i64` of two's complement. A phase is a Go string:
-- `other` stands for a text that no constant names. There is no fuel: every loop of the modelled
-- code runs over a list that the model follows. RetryOnConflict, which bounds the number of
-- conflicts, appears in Writer only through the writes that succeed.
--
-- A Go string of the editor is a list of bytes. The overlay is a tree of files and folders that only
-- the editor writes to, and the checkout a function from paths to what Lstat and ReadFile tell; a
-- full disk or a missing right does not occur. SHA-256 in hexadecimal is a function, of which two
-- theorems suppose that it has no collisions.
--
-- The API server is not code of the program. Its lists are arguments; its reads are a function;
-- and the compare-and-swap of an update is the interface `LeaseServer` of Writer/Protocol.antt,
-- whose law says that an update succeeds only on the version that was read. sort.Slice is an
-- argument of Admission.
--
-- Not modelled: the rest of the reconcilers (creation and deletion of other resources, events,
-- delays), the gRPC service, the binaries of cmd, rendering and parsing of contracts,
-- the audit log and the deployment of validation environments.
pub mod Prelude
pub mod Api
pub mod State
pub mod Steps
pub mod Approval
pub mod Writer
pub mod Artifacts
pub mod Inputs
pub mod Reconcile
pub mod Admission
pub mod Reservations
pub mod LeaseControl
pub mod Text
pub mod Paths
pub mod Editor
pub mod Claims
pub mod Gate
pub mod Samples
