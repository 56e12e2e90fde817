-- ===== src/Job/Examples.antt =====
-- The theorems of the hire loop at the hire of the tests.
use freeagents.Base.{
  ok, length, count, ◌+◌, ◌*◌, ◌≤◌, ◌<◌, ◌≡◌, refl, ◌≢◌, ◌↔◌, inr, false, none, some, [], ◌∷◌, ◌++◌,
  map, arith, is_some, true,
}
use freeagents.Base.Text.{codes, trim, text_eq_iff}
use freeagents.Job.Status.{proposed, confirmed, staged, declined, closed_unpaid, is_terminal}
use freeagents.Job.Model.{days, buyer, Criterion, Job, validate}
use freeagents.Job.Agreement.{agreement_gap, criterion_text, spec_text, confirm_spec}
use freeagents.Job.Lines.{find_match, revise_lines}
use freeagents.Job.Event.{perform, run}
use freeagents.Job.Exchange.{propose, accept_criterion, accept_price}
use freeagents.Job.Tests.{
  plain, input, first_job, line_a, agreeing, delivering, criterion_a, agreed_job, opens,
}
use freeagents.Job.Acceptance.{accept_all_events, close_events, exchange_completes}
use freeagents.Job.Final.{◌⟶*◌, without_staging, run-⟶*, run_final}
use freeagents.Job.Revision.{
  proposed_text, sent_back, IsStoredLine, revise_lines-edit, accepted_as, revise_lines-same,
  revise_lines-count,
}
use freeagents.Job.Terms.{SameTerms, run-SameTerms}
use freeagents.Job.Hashing.{hash_spec, normalise, newline}
use freeagents.Job.Invariant.Agreed.{IsAgreed}
use freeagents.Job.Runs.{IsSound, run-IsSound}
use freeagents.Job.Confirm.{IsReady, confirm_spec_iff}
use freeagents.Job.Clocks.{apply_lapses}
use freeagents.Job.Lifecycle.{
  stage_work, request_redo, refuse_redo, submit_pull_request, complete_job,
}
use freeagents.Job.Step.{line_by}
use freeagents.Job.Consent.{HasAccepted, was_confirmed, run-HasAccepted}
use freeagents.Job.Deadlines.{apply_lapses-reader}
use freeagents.Job.Unpaid.{apply_lapses-paid, apply_lapses-unpaid}
use freeagents.Job.Digest.{two_ends, stripped_lines, normalise-two_ends}

run-IsSound_example : IsSound plain (run plain (agreeing ++ delivering) first_job)
run-IsSound_example = run-IsSound plain input 0 (agreeing ++ delivering) opens

abbrev confirmed_job : Job
confirmed_job = record agreed_job {
  status = confirmed;
  confirmed_spec_hash = some (hash_spec plain (spec_text agreed_job));
  confirmed_at = some 1000;
}

confirm_spec_iff_example :
    IsReady agreed_job ↔ (confirm_spec plain agreed_job 1000 ≡ ok confirmed_job)
confirm_spec_iff_example = confirm_spec_iff plain agreed_job 1000

confirmed_job-IsAgreed : IsAgreed plain confirmed_job
unfolding agreement_gap spec_text
confirmed_job-IsAgreed = record {
  agreed = λ _. refl;
  railed = λ _. refl;
  pinned = λ _. refl;
  paired = refl;
  dated = λ _. refl;
  fresh = λ o. cc;
}

run-SameTerms_example : SameTerms (run plain delivering confirmed_job) confirmed_job
run-SameTerms_example = run-SameTerms plain confirmed_job delivering confirmed_job-IsAgreed refl

-- staged at 2000, the remainder not settled
abbrev staged_job : Job
staged_job = record confirmed_job {
  status = staged;
  staged_commit = some (codes "c0ffee");
  staged_at = some 2000;
}

apply_lapses-paid_example :
    (apply_lapses staged_job 9000000000 false (some 3000)).status ≢ closed_unpaid
apply_lapses-paid_example =
    apply_lapses-paid staged_job 9000000000 false (some 3000) (inr refl) (λ e. cc)

apply_lapses-reader_example :
    (apply_lapses (apply_lapses staged_job 604802001 false none) 9000000000 false none).status
    ≡ (apply_lapses staged_job 9000000000 false none).status
apply_lapses-reader_example =
    apply_lapses-reader staged_job 604802001 9000000000 false none (omega arith)

apply_lapses-unpaid_example :
    ((apply_lapses staged_job 604802001 false none).status ≡ closed_unpaid)
    ↔ (2000 + days (7 + 7 * 0) < 604802001)
apply_lapses-unpaid_example = apply_lapses-unpaid staged_job 604802001 2000 refl refl (ground arith)

revise_lines-count_example :
    (map criterion_text (criterion_a ∷ []) ≡ map proposed_text (line_a ∷ []))
    × (count (accepted_as buyer (codes "tests pass")) (criterion_a ∷ [])
        ≤ count (accepted_as buyer (codes "tests pass")) (criterion_a ∷ []))
unfolding revise_lines find_match trim
revise_lines-count_example =
    revise_lines-count buyer (codes "tests pass") (criterion_a ∷ []) (line_a ∷ []) refl

criterion_a-IsStoredLine : IsStoredLine criterion_a
unfolding trim
criterion_a-IsStoredLine = (refl, λ e. cc)

revise_lines-same_example :
    revise_lines (criterion_a ∷ []) (map (sent_back (codes "buyer")) (criterion_a ∷ []))
    ≡ ok (criterion_a ∷ [])
revise_lines-same_example =
    revise_lines-same (codes "buyer") buyer (criterion_a ∷ []) refl (criterion_a-IsStoredLine, tt)

abbrev criterion_b : Criterion
criterion_b = record criterion_a { text = codes "docs" }

revise_lines-edit_example :
    revise_lines (criterion_b ∷ criterion_a ∷ []) (
      map (sent_back (codes "buyer")) (criterion_b ∷ [])
      ++ (record { text = codes "tests run"; proposed_by = codes "buyer" } ∷ []))
    ≡ ok (
        criterion_b
        ∷ record {
          text = trim (codes "tests run");
          proposed_by = buyer;
          accepted_by_buyer = false;
          accepted_by_agent = false;
        }
        ∷ [])
unfolding trim
revise_lines-edit_example =
    revise_lines-edit (codes "buyer") buyer criterion_a (codes "tests run") (criterion_b ∷ []) []
      refl ((refl, λ e. cc), tt) tt refl
      ((λ e. let k = (text_eq_iff (codes "tests pass") (codes "tests run")).1 e in cc), tt) tt

exchange_completes_example :
    (run plain
      (accept_all_events (length agreed_job.criteria) ++ close_events 1000)
      agreed_job).status
    ≡ confirmed
exchange_completes_example = exchange_completes plain agreed_job 1000 refl (λ e. cc) refl refl

abbrev declined_job : Job
declined_job = record agreed_job { status = declined }

run_final_example :
    without_staging (run plain delivering declined_job) ≡ without_staging declined_job
unfolding is_terminal
run_final_example = run_final plain delivering declined_job refl

run-⟶*_example : proposed ⟶* (run plain delivering agreed_job).status
run-⟶*_example = run-⟶* plain delivering agreed_job

agreed_run : is_some (run plain (agreeing ++ delivering) first_job).confirmed_at ≡ true
unfolding run perform propose accept_criterion accept_price confirm_spec agreement_gap trim validate
    stage_work request_redo refuse_redo submit_pull_request complete_job
agreed_run = refl

run-HasAccepted_example : HasAccepted plain (line_by buyer) first_job (agreeing ++ delivering)
run-HasAccepted_example =
    run-HasAccepted plain input 0 (agreeing ++ delivering) (line_by buyer) opens
      (was_confirmed agreed_run)

normalise-two_ends_example :
    normalise (codes "a" ++ two_ends) ≡ stripped_lines (codes "a") ++ (newline ∷ [])
normalise-two_ends_example = normalise-two_ends (codes "a") (omega arith)
