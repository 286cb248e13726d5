-- ===== src/Gate/Runs.antt =====
-- The updates of an approval request by any number of runs of its controller.
use sovereign_ai.Prelude.{
  Option, none, some, String, ◌≡◌, ◌≢◌, refl, Bool, true, false, List, [], ◌∷◌, not, ◌==◌, ◌||◌,
  Bool-cases, String, arith, inl, inr, ap, ◌∙◌,
}
use sovereign_ai.Api.{awaiting_approval, succeeded, phase_eq, Artifact}
use sovereign_ai.State.{is_terminal}
use sovereign_ai.Gate.{
  ApprovalRequest, Checked, authorized, waiting, unauthorized, attempt_error, approval_attempt,
}
use sovereign_ai.Gate.Evidence.{Resolved, resolved, unready, refused, read_error}
use sovereign_ai.Gate.Kept.{Keeps, set_failed-Keeps, set_awaiting-Keeps, resolve_decision-Keeps}
use sovereign_ai.Gate.Taken.{IsGranted, changed_same, set_failed-ne, resolve_decision-IsGranted}
use sovereign_ai.Gate.Request.{
  GateScene, StatusChange, changed, set_failed, set_awaiting, resolve_decision,
  update_approval_status, update, on_inputs, on_checked_attempt, reconcile_approval,
}

-- One write of the status: a run that read `approval` before, in a scene of its own, updates the
-- request as it is at the write.
pub data Update (scene : GateScene) (r next : ApprovalRequest) : Type 0 where
  written :
      (terminating : Bool) (approval : ApprovalRequest) (mutate : ApprovalRequest → StatusChange)
      → reconcile_approval scene terminating approval ≡ update mutate
      → update_approval_status approval mutate r ≡ changed next
      → Update scene r next

-- Any number of writes, one after the other, with the scenes that they read, the last one first.
pub data Run : List GateScene → ApprovalRequest → ApprovalRequest → Type 0 where
  start : {r : ApprovalRequest} → Run [] r r
  followed_by :
      {scenes : List GateScene} {scene : GateScene} {r middle next : ApprovalRequest}
      → Run scenes r middle
      → Update scene middle next
      → Run (scene ∷ scenes) r next

-- The `mutate` functions of the controller.
data IsMutate (scene : GateScene) (mutate : ApprovalRequest → StatusChange) : Type 0 where
  fails : (reason : String) → mutate ≡ set_failed reason → IsMutate scene mutate
  awaits : mutate ≡ set_awaiting → IsMutate scene mutate
  resolves : mutate ≡ resolve_decision scene → IsMutate scene mutate

update_same : (f g : ApprovalRequest → StatusChange) → update f ≡ update g → g ≡ f
update_same f g h = cc

inputs-IsMutate :
    (scene : GateScene) (audit_error : Option String) (found : Resolved (List Artifact))
    (mutate : ApprovalRequest → StatusChange)
    → on_inputs audit_error found ≡ update mutate
    → IsMutate scene mutate
inputs-IsMutate scene none (resolved evidence) mutate h = awaits (update_same _ mutate h)
inputs-IsMutate scene (some message) (resolved evidence) mutate h = cc
inputs-IsMutate scene audit_error unready mutate h = cc
inputs-IsMutate scene audit_error (refused reason) mutate h =
    fails "InvalidArtifactInputs" (update_same _ mutate h)
inputs-IsMutate scene audit_error (read_error message) mutate h = cc

attempt-IsMutate :
    (scene : GateScene) (approval : ApprovalRequest) (checked : Checked)
    (mutate : ApprovalRequest → StatusChange)
    → on_checked_attempt scene approval checked ≡ update mutate
    → IsMutate scene mutate
attempt-IsMutate scene approval (authorized attempt) mutate h =
    inputs-IsMutate scene scene.audit_error _ mutate h
attempt-IsMutate scene approval waiting mutate h = cc
attempt-IsMutate scene approval unauthorized mutate h =
    fails "InvalidStepAttemptAuthority" (update_same _ mutate h)
attempt-IsMutate scene approval (attempt_error message) mutate h = cc

reconcile-IsMutate :
    (scene : GateScene) (terminating : Bool) (approval : ApprovalRequest)
    (mutate : ApprovalRequest → StatusChange)
    → reconcile_approval scene terminating approval ≡ update mutate
    → IsMutate scene mutate
unfolding reconcile_approval
reconcile-IsMutate scene terminating approval mutate h =
    elim (Bool-cases (approval.meta.deleting || terminating || is_terminal approval.status.phase)) [
      | inl t ↦ absurd (ground arith)
      | inr f ↦ elim (Bool-cases (phase_eq approval.status.phase awaiting_approval)) [
        | inl t ↦ resolves (update_same _ mutate (rw (f, t) at h))
        | inr g ↦
            attempt-IsMutate scene approval (approval_attempt scene.attempts approval) mutate
              (rw (f, g) at h)
      ]
    ]

updated :
    (approval r next : ApprovalRequest) (mutate : ApprovalRequest → StatusChange)
    → update_approval_status approval mutate r ≡ changed next
    → (mutate r ≡ changed next) × (is_terminal r.status.phase ≡ false)
unfolding update_approval_status
updated approval r next mutate h =
    elim (Bool-cases
      (not (r.meta.uid == approval.meta.uid) || r.meta.deleting || is_terminal r.status.phase)) [
        | inl t ↦ absurd (ground arith)
        | inr f ↦ (rw f at h, ground arith)
      ]

set_awaiting-ne :
    (r next : ApprovalRequest) → set_awaiting r ≡ changed next → next.status.phase ≢ succeeded
unfolding set_awaiting
set_awaiting-ne r next h s = elim (Bool-cases (phase_eq r.status.phase awaiting_approval)) [
  | inl t ↦ absurd (ground arith)
  | inr f ↦
      let phase = ap (λ (x : ApprovalRequest). x.status.phase) (changed_same _ next (rw f at h)) in
      cc
]

mutate-IsGranted :
    (scene : GateScene) (r next : ApprovalRequest) (mutate : ApprovalRequest → StatusChange)
    → IsMutate scene mutate
    → mutate r ≡ changed next
    → next.status.phase ≡ succeeded
    → IsGranted scene r next
mutate-IsGranted scene r next mutate (fails reason e) h s =
    absurd (set_failed-ne reason r next (rw e at h) s)
mutate-IsGranted scene r next mutate (awaits e) h s = absurd (set_awaiting-ne r next (rw e at h) s)
mutate-IsGranted scene r next mutate (resolves e) h s =
    resolve_decision-IsGranted scene r next (rw e at h) s

Update-IsGranted :
    {scene : GateScene} {r next : ApprovalRequest}
    → Update scene r next
    → next.status.phase ≡ succeeded
    → IsGranted scene r next
Update-IsGranted {scene} {r} {next} (written terminating approval mutate e u) s =
    let (changes, _) = updated approval r next mutate u in
    mutate-IsGranted scene r next mutate (reconcile-IsMutate scene terminating approval mutate e)
      changes s

Update-Keeps : {scene : GateScene} {r next : ApprovalRequest} → Update scene r next → Keeps r next
Update-Keeps {scene} {r} {next} (written terminating approval mutate e u) =
    let (changes, _) = updated approval r next mutate u in
    elim (reconcile-IsMutate scene terminating approval mutate e) [
      | fails reason f ↦ set_failed-Keeps reason r next (rw f at changes)
      | awaits f ↦ set_awaiting-Keeps r next (rw f at changes)
      | resolves f ↦ resolve_decision-Keeps scene r next (rw f at changes)
    ]

Run-Keeps : (scenes : List GateScene) (r next : ApprovalRequest) → Run scenes r next → Keeps r next
Run-Keeps scenes r next start = (refl, refl)
Run-Keeps scenes r next (followed_by {scenes = rest} {middle = before} run last) =
    let (meta, spec) = Run-Keeps rest r before run in
    let (meta', spec') = Update-Keeps last in (meta' ∙ meta, spec' ∙ spec)

-- Where any sequence of writes of approval controllers, each in a scene of its own, leaves a request
-- that had not succeeded in the phase Succeeded, the writes before the last one kept its metadata and
-- spec, and the scene of the last write has a decision "Approved" that is bound to the request, its
-- attempt and its workflow and given by a member of a required group, a live attempt that controls
-- and names the request, the live workflow whose active gate the attempt is, and accepted evidence
-- for every input; and the request records the decision's name and UID.
pub Run-IsGranted :
    (scenes : List GateScene) (r next : ApprovalRequest)
    → Run scenes r next
    → r.status.phase ≢ succeeded
    → next.status.phase ≡ succeeded
    → (last : GateScene) × (earlier : List GateScene) × (before : ApprovalRequest) × (scenes
        ≡ last ∷ earlier)
      × Run earlier r before
      × Keeps r before
      × IsGranted last before next
Run-IsGranted scenes r next start fresh s = absurd (fresh s)
Run-IsGranted scenes r next (followed_by {scenes = rest} {scene} {middle = before} run last) fresh
      s =
    (scene, rest, before, refl, run, Run-Keeps rest r before run, Update-IsGranted last s)

Update-live :
    {scene : GateScene} {r next : ApprovalRequest}
    → Update scene r next
    → is_terminal r.status.phase ≡ false
Update-live {scene} {r} {next} (written terminating approval mutate e u) =
    (updated approval r next mutate u).1

-- No sequence of writes of approval controllers changes a request in a terminal phase.
pub Run-same :
    (scenes : List GateScene) (r next : ApprovalRequest)
    → Run scenes r next
    → is_terminal r.status.phase ≡ true
    → next ≡ r
Run-same scenes r next start h = refl
Run-same scenes r next (followed_by {scenes = rest} {middle = before} run last) h =
    let same = Run-same rest r before run h in let live = Update-live last in absurd (ground arith)
