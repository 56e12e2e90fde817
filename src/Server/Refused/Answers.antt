-- ===== src/Server/Refused/Answers.antt =====
-- What an error answer says of the stored jobs.
use freeagents.Base.{◌≡◌, Bool, true, false, ◌⊎◌}
use freeagents.Base.Text.{Text}
use freeagents.Server.Ports.{Request, Ports, Refusal, error_body, Success, job_row, receipt, State}
use freeagents.Server.Requests.{
  Call, criteria_call, request_changes_call, accept_price_call, confirm_call, withdraw_call,
  decline_call, accept_call, stage_call, staged_decline_call, redo_refuse_call, merge_call,
  redo_call, cited_close_call, pull_request_call, handle, answer_of, serve,
}
use freeagents.Server.Refused.Routes.{
  AsLoaded, party_exchange-AsLoaded, criteria-AsLoaded, withdraw-AsLoaded, decline-AsLoaded,
  stage-AsLoaded, staged_decline-AsLoaded, redo-AsLoaded, redo_refuse-AsLoaded,
  cited_close-AsLoaded,
}
use freeagents.Server.Refused.Confirm.{confirm-AsLoaded}
use freeagents.Server.Terms.{request_changes_route, accept_route, accept_price_route}
use freeagents.Server.Route.{Reply}
use freeagents.Server.Clocks.{load_for_exchange}
use freeagents.Server.Post.{Post, is_sent, is_value}

-- the calls that load their job once; the pull request's loads it twice, and a merge that is
-- observed is stored before its credential
abbrev pub is_loaded_once : Call → Bool
is_loaded_once (pull_request_call url) = false
is_loaded_once merge_call = false
is_loaded_once call = true

module _ (ports : Ports) (id : Text) (who : Request) where
  handle-AsLoaded :
      (call : Call) → is_loaded_once call ≡ true → AsLoaded ports id (handle ports id who call)
  unfolding handle request_changes_route accept_route accept_price_route
  handle-AsLoaded (criteria_call body) h = criteria-AsLoaded ports id who body
  handle-AsLoaded request_changes_call h = party_exchange-AsLoaded ports id who _
  handle-AsLoaded (accept_call index) h = party_exchange-AsLoaded ports id who _
  handle-AsLoaded accept_price_call h = party_exchange-AsLoaded ports id who _
  handle-AsLoaded confirm_call h = confirm-AsLoaded ports id who
  handle-AsLoaded withdraw_call h = withdraw-AsLoaded ports id who
  handle-AsLoaded decline_call h = decline-AsLoaded ports id who
  handle-AsLoaded (stage_call commit) h = stage-AsLoaded ports id who commit
  handle-AsLoaded staged_decline_call h = staged_decline-AsLoaded ports id who
  handle-AsLoaded (redo_call index) h = redo-AsLoaded ports id who index
  handle-AsLoaded redo_refuse_call h = redo_refuse-AsLoaded ports id who
  handle-AsLoaded (cited_close_call index reason) h = cited_close-AsLoaded ports id who index reason
  handle-AsLoaded (pull_request_call url) h = cc
  handle-AsLoaded merge_call h = cc

abbrev AtMostLoaded : Ports → Text → State → State → Type 0
AtMostLoaded ports id s s' = (s'.rows ≡ s.rows) ⊎ (s'.rows ≡ (load_for_exchange ports id s).1.rows)

refused_reply :
    (ports : Ports) (id : Text) (s : State) {refusal : Refusal} {r : Reply Success × State}
    → Post (λ f s'. AtMostLoaded ports id s s') (λ a s'. Unit {0}) r
    → (answer_of r.0).body ≡ error_body refusal
    → AtMostLoaded ports id s r.1
refused_reply ports id s (is_sent f s' h) e = h
refused_reply ports id s (is_value (job_row row) s' u) e = cc
refused_reply ports id s (is_value (receipt row credential) s' u) e = cc

-- An error answer to any request but the two of a pull request leaves every stored job as it was
-- found, or as the load of the job left it.
pub serve-refused :
    (ports : Ports) (id : Text) (who : Request) (call : Call) (s : State) {refusal : Refusal}
    → is_loaded_once call ≡ true
    → (serve ports id who call s).0.body ≡ error_body refusal
    → ((serve ports id who call s).1.rows ≡ s.rows)
      ⊎ ((serve ports id who call s).1.rows ≡ (load_for_exchange ports id s).1.rows)
unfolding serve
serve-refused ports id who call s h e =
    refused_reply ports id s ((handle-AsLoaded ports id who call h).at s) e
