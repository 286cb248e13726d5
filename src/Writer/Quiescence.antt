-- ===== src/Writer/Quiescence.antt =====
-- PodWriterQuiescent and JobWriterQuiescent of internal/controllers/workspace_writer.go: whether an
-- execution that held the lease has stopped. The arguments `get` are the API client's reads.
use sovereign_ai.Prelude.{
  ◌≡◌, refl, Bool, true, false, ◌&&◌, ◌||◌, String, ◌==◌, Result, ok, err, if◌then◌else◌,
}
use sovereign_ai.Prelude.Int.{ℤ, pos, ltb_ℤ, eqb_ℤ}

data PodPhase : Type 0 where
  pod_pending pod_running pod_succeeded pod_failed pod_unknown : PodPhase

data FetchedPod : Type 0 where
  pod_found : PodPhase → FetchedPod
  pod_missing : FetchedPod
  pod_error : String → FetchedPod

record JobStatus : Type 0 where
  active : ℤ
  succeeded : ℤ
  failed : ℤ

data FetchedJob : Type 0 where
  job_found : JobStatus → FetchedJob
  job_missing : FetchedJob
  job_error : String → FetchedJob

abbrev pod_stopped : FetchedPod → Result String Bool
pod_stopped (pod_error message) = err message
pod_stopped pod_missing = ok true
pod_stopped (pod_found pod_succeeded) = ok true
pod_stopped (pod_found pod_failed) = ok true
pod_stopped (pod_found _) = ok false

abbrev pod_writer_quiescent : (String → FetchedPod) → String → Result String Bool
pod_writer_quiescent get name = if name == "" then ok true else pod_stopped (get name)

abbrev job_stopped : FetchedJob → Result String Bool
job_stopped (job_error message) = err message
job_stopped job_missing = ok true
job_stopped (job_found status) =
    ok (
      eqb_ℤ status.active (pos 0)
      && (ltb_ℤ (pos 0) status.succeeded || ltb_ℤ (pos 0) status.failed))

abbrev job_writer_quiescent : (String → FetchedJob) → String → Result String Bool
job_writer_quiescent get name = if name == "" then ok true else job_stopped (get name)

stops :
    (pod_writer_quiescent (λ name. pod_found pod_running) "run-1" ≡ ok false)
    × (pod_writer_quiescent (λ name. pod_missing) "run-1" ≡ ok true)
    × (job_writer_quiescent
          (λ name.
            let s : JobStatus = record { active = pos 0; succeeded = pos 0; failed = pos 0 } in
            job_found s)
          "job-1"
        ≡ ok false)
stops = (refl, refl, refl)
