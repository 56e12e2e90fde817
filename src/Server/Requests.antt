-- ===== src/Server/Requests.antt =====
-- The requests that the modelled routes answer, as data, and a sequence of them. A request is
-- answered to its end before the next one starts.
use freeagents.Base.{List, [], ◌∷◌}
use freeagents.Base.Text.{Text}
use freeagents.Base.Number.{Number}
use freeagents.Server.Ports.{
  error_body, Answer, State, Request, Ports, job_body, completed_body, Success, job_row, receipt,
}
use freeagents.Server.Route.{Reply, sent, value, Route}
use freeagents.Server.Terms.{
  Field, CriteriaBody, criteria_route, request_changes_route, accept_route, accept_price_route,
  withdraw_route, decline_route,
}
use freeagents.Server.Work.{
  stage_route, staged_decline_route, redo_route, redo_refuse_route, cited_close_route,
}
use freeagents.Server.Confirm.{confirm_route}
use freeagents.Server.Submit.{pull_request_route}
use freeagents.Server.Merge.{merge_route}

-- what a request asks of a job
pub data Call : Type 0 where
  criteria_call : CriteriaBody → Call
  request_changes_call accept_price_call confirm_call withdraw_call decline_call : Call
  accept_call : Number → Call
  stage_call : Field Text → Call
  staged_decline_call redo_refuse_call merge_call : Call
  redo_call : Field Number → Call
  cited_close_call : Field Number → Field Text → Call
  pull_request_call : Field Text → Call

unfoldable pub handle : Ports → Text → Request → Call → Route Success
handle ports id who (criteria_call body) = criteria_route ports id who body
handle ports id who request_changes_call = request_changes_route ports id who
handle ports id who (accept_call index) = accept_route ports id who index
handle ports id who accept_price_call = accept_price_route ports id who
handle ports id who confirm_call = confirm_route ports id who
handle ports id who withdraw_call = withdraw_route ports id who
handle ports id who decline_call = decline_route ports id who
handle ports id who (stage_call commit) = stage_route ports id who commit
handle ports id who staged_decline_call = staged_decline_route ports id who
handle ports id who (redo_call index) = redo_route ports id who index
handle ports id who redo_refuse_call = redo_refuse_route ports id who
handle ports id who (cited_close_call index reason) = cited_close_route ports id who index reason
handle ports id who (pull_request_call url) = pull_request_route ports id who url
handle ports id who merge_call = merge_route ports id who

abbrev pub answer_of : Reply Success → Answer
answer_of (sent f) = record { status = f.status; body = error_body f.refusal }
answer_of (value (job_row row)) = record { status = 200; body = job_body row }
answer_of (value (receipt row credential)) = record {
  status = 200;
  body = completed_body row credential;
}

-- the answer to one request, and the state behind it
unfoldable pub serve : Ports → Text → Request → Call → State → Answer × State
serve ports id who call s = let (r, s') = handle ports id who call s in (answer_of r, s')

pub record Asked : Type 0 where
  pub job_id : Text
  pub who : Request
  pub call : Call

-- the state behind a sequence of requests
unfoldable pub serve_all : Ports → List Asked → State → State
serve_all ports [] s = s
serve_all ports (a ∷ rest) s = serve_all ports rest (serve ports a.job_id a.who a.call s).1
