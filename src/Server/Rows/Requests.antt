-- ===== src/Server/Rows/Requests.antt =====
-- What every change of a job keeps holds of every stored job after any requests.

use freeagents.Base.{is_some, ◌≡◌, refl, Bool, true, false, none, some, List, [], ◌∷◌, sym}
use freeagents.Base.Text.{Text}
use freeagents.Job.Model.{Rail, Job}
use freeagents.Job.Runs.{IsSound, Step-IsSound}
use freeagents.Server.Ports.{State, Request, Ports, Success}
use freeagents.Server.Route.{Reply}
use freeagents.Server.Post.{Post, is_sent, is_value}
use freeagents.Server.Requests.{
  Call, criteria_call, request_changes_call, accept_price_call, confirm_call, withdraw_call,
  decline_call, accept_call, stage_call, staged_decline_call, redo_refuse_call, merge_call,
  redo_call, cited_close_call, pull_request_call, handle, serve, Asked, serve_all,
}
use freeagents.Server.Rows.{Change, steps, fills_rail, AllRows, Keeps, Any}
use freeagents.Server.Rows.Routes.{
  criteria-Keeps, request_changes-Keeps, accept-Keeps, accept_price-Keeps, withdraw-Keeps,
  decline-Keeps,
}
use freeagents.Server.Rows.Work.{
  stage-Keeps, staged_decline-Keeps, redo-Keeps, redo_refuse-Keeps, cited_close-Keeps,
  pull_request-Keeps, merge-Keeps,
}
use freeagents.Server.Rows.Confirm.{confirm-Keeps}

module _ (ports : Ports) (P : Job → Type 0)
    (keep : (a b : Job) → Change ports.sha256_hex a b → P a → P b) where
  handle-Keeps : (id : Text) (who : Request) (call : Call) → Keeps P Any (handle ports id who call)
  unfolding handle
  handle-Keeps id who (criteria_call body) = criteria-Keeps ports P keep id who body
  handle-Keeps id who request_changes_call = request_changes-Keeps ports P keep id who
  handle-Keeps id who (accept_call index) = accept-Keeps ports P keep id who index
  handle-Keeps id who accept_price_call = accept_price-Keeps ports P keep id who
  handle-Keeps id who confirm_call = confirm-Keeps ports P keep id who
  handle-Keeps id who withdraw_call = withdraw-Keeps ports P keep id who
  handle-Keeps id who decline_call = decline-Keeps ports P keep id who
  handle-Keeps id who (stage_call commit) = stage-Keeps ports P keep id who commit
  handle-Keeps id who staged_decline_call = staged_decline-Keeps ports P keep id who
  handle-Keeps id who (redo_call index) = redo-Keeps ports P keep id who index
  handle-Keeps id who redo_refuse_call = redo_refuse-Keeps ports P keep id who
  handle-Keeps id who (cited_close_call index reason) =
      cited_close-Keeps ports P keep id who index reason
  handle-Keeps id who (pull_request_call url) = pull_request-Keeps ports P keep id who url
  handle-Keeps id who merge_call = merge-Keeps ports P keep id who

  left_rows :
      {r : Reply Success × State}
      → Post (λ f s. AllRows P s) (λ a s. AllRows P s × Any a) r
      → AllRows P r.1
  left_rows (is_sent f s h) = h
  left_rows (is_value a s h) = h.0

  pub serve-AllRows :
      (id : Text) (who : Request) (call : Call) (s : State)
      → AllRows P s
      → AllRows P (serve ports id who call s).1
  unfolding serve
  serve-AllRows id who call s h = left_rows ((handle-Keeps id who call).at s h)

  pub serve_all-AllRows :
      (asked : List Asked) (s : State) → AllRows P s → AllRows P (serve_all ports asked s)
  unfolding serve_all
  serve_all-AllRows [] s h = h
  serve_all-AllRows (a ∷ rest) s h =
      serve_all-AllRows rest _ (serve-AllRows a.job_id a.who a.call s h)

not_confirmed : (b : Bool) → (b ≡ true → false ≡ true) → b ≡ false
not_confirmed true h = sym (h refl)
not_confirmed false h = refl

-- A rail that is open belongs to a job that was never confirmed, so filling it keeps a job sound.
rail-IsSound :
    (sha : Text → Text) (job : Job) (rail : Rail)
    → job.rail ≡ none
    → IsSound sha job
    → IsSound sha (record job { rail = some rail })
rail-IsSound sha job rail e h = record {
  agreement = record {
    agreed = λ c. cc (unconfirmed);
    railed = λ c. refl;
    pinned = λ c. cc (unconfirmed);
    paired = h.agreement.paired;
    dated = h.agreement.dated;
    fresh = h.agreement.fresh;
  };
  redo = record {
    deposit = h.redo.deposit;
    allowance = h.redo.allowance;
    used = h.redo.used;
    extension = h.redo.extension;
    asked = h.redo.asked;
    cited_line = h.redo.cited_line;
    refused = h.redo.refused;
    pending = h.redo.pending;
  };
  outcome = record {
    staged_pair = h.outcome.staged_pair;
    staged_dated = h.outcome.staged_dated;
    submitted_pair = h.outcome.submitted_pair;
    submitted_dated = h.outcome.submitted_dated;
    deadline = h.outcome.deadline;
    merged_pair = h.outcome.merged_pair;
    merged = h.outcome.merged;
    deemed = h.outcome.deemed;
    cited = h.outcome.cited;
    cited_line = h.outcome.cited_line;
    cited_reason = h.outcome.cited_reason;
    cited_author = h.outcome.cited_author;
  };
}
  where
    unconfirmed : is_some job.confirmed_at ≡ false
    unconfirmed = not_confirmed (is_some job.confirmed_at) (λ c. rw e at (h.agreement.railed c))

Change-IsSound : (sha : Text → Text) (a b : Job) → Change sha a b → IsSound sha a → IsSound sha b
Change-IsSound sha a b (steps s) h = Step-IsSound sha s h
Change-IsSound sha a b (fills_rail rail e) h = rail-IsSound sha a rail e h

-- Whatever is requested of the stored jobs, and whatever the ports answer, jobs that are sound
-- stay sound.
pub serve_all-IsSound :
    (ports : Ports) (asked : List Asked) (s : State)
    → AllRows (IsSound ports.sha256_hex) s
    → AllRows (IsSound ports.sha256_hex) (serve_all ports asked s)
serve_all-IsSound ports =
    serve_all-AllRows ports (IsSound ports.sha256_hex) (Change-IsSound ports.sha256_hex)
