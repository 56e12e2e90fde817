-- ===== src/Server/Ends/Answers.antt =====
-- What an answer with the job says of the money.
use mathlib.Core.Path.{subst}
use freeagents.Base.{◌≡◌, refl}
use freeagents.Base.Text.{Text}
use freeagents.Base.Number.{Number}
use freeagents.Job.Model.{Job}
use freeagents.Server.Ports.{
  deposit, remainder, job_body, Success, job_row, receipt, State, Request, Ports,
}
use freeagents.Server.Route.{Reply}
use freeagents.Server.Post.{Post, is_sent, is_value}
use freeagents.Server.Terms.{Field}
use freeagents.Server.Requests.{
  confirm_call, cited_close_call, pull_request_call, handle, answer_of, serve,
}
use freeagents.Server.Ends.{IsPaid}
use freeagents.Server.Ends.Money.{IsPaidFor, confirm-Ends, pull_request-Ends, cited_close-Ends}

shown_reply :
    (Q : Success → Type 0) {row : Job} {r : Reply Success × State}
    → Post (λ f s'. Unit {0}) (λ a s'. Q a) r
    → (answer_of r.0).body ≡ job_body row
    → Q (job_row row)
shown_reply Q (is_sent f s u) e = cc
shown_reply Q (is_value (job_row job) s q) e = subst (λ (b : Job). Q (job_row b)) (cc) q
shown_reply Q (is_value (receipt job credential) s q) e = cc

module _ (ports : Ports) (id : Text) (who : Request) (s : State) {row : Job} where
  -- A job that the confirm route answers is one whose deposit the gate said is settled.
  pub confirm_call-IsPaid :
      (serve ports id who confirm_call s).0.body ≡ job_body row → IsPaid ports deposit row.id
  unfolding serve handle
  confirm_call-IsPaid e =
      shown_reply (IsPaidFor ports deposit) ((confirm-Ends ports id who).at s) e row refl

  -- The pull-request route answers with a job only if the gate said that the remainder is settled.
  pub pull_request_call-IsPaid :
      (url : Field Text)
      → (serve ports id who (pull_request_call url) s).0.body ≡ job_body row
      → IsPaid ports remainder id
  unfolding serve handle
  pull_request_call-IsPaid url e =
      shown_reply (λ a. IsPaid ports remainder id) ((pull_request-Ends ports id who url).at s) e

  -- A job that the cited-close route answers is one whose remainder the gate said is settled.
  pub cited_close_call-IsPaid :
      (index : Field Number) (reason : Field Text)
      → (serve ports id who (cited_close_call index reason) s).0.body ≡ job_body row
      → IsPaid ports remainder row.id
  unfolding serve handle
  cited_close_call-IsPaid index reason e =
      shown_reply (IsPaidFor ports remainder) ((cited_close-Ends ports id who index reason).at s) e
        row refl
