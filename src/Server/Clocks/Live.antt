-- ===== src/Server/Clocks/Live.antt =====
-- What a load does where a port fails, and the clock of the list reads.
use freeagents.Base.{ℕ, ◌≡◌, refl, ◌∙◌, Option, none, some, true, List}
use freeagents.Base.Text.{Text}
use freeagents.Job.Model.{Job, Instant}
use freeagents.Server.Ports.{Failure, State, PullRequestRef, Ports}
use freeagents.Server.Route.{Route, ◌>>=◌, send, Reply, sent, try, now}
use freeagents.Server.Post.{
  Post, bind-Post, send-Post, weaken-Post, is_sent, is_value, pure-Post, try-Post,
}
use freeagents.Server.Observe.{
  corrupted, observe_at, Observation, answered, moved_head, observed, parsed_url,
  observe_pull_request,
}
use freeagents.Server.Clocks.{
  asked_observation, ask_github_before_deeming, asked_if_passed, lapsed_unless_completed,
  apply_live_lapses,
}
use freeagents.Server.Reads.{ReadsOnly}
use freeagents.Server.Refused.{reads-Post}
use freeagents.Job.Clocks.{deem_window_has_passed}
use freeagents.Server.Reads.Checks.{facts-ReadsOnly}

-- an action that sends an error answer and leaves the rows as they were
pub record Fails {ℓ} {A : Type ℓ} (m : Route A) : Type ℓ where
  pub at : (s : State) → Post (λ f s'. s'.rows ≡ s.rows) (λ a s'. ⊥) (m s)

after-Fails {ℓ κ} :
    {A : Type ℓ} {B : Type κ} (call : Route A) (next : A → Route B)
    → ReadsOnly call
    → ((a : A) → Fails (next a))
    → Fails (call >>= next)
after-Fails call next k kn = record {
  at = λ s.
      bind-Post call next s (reads-Post call s.rows s k refl)
        λ a s' e. weaken-Post ((kn a).at s') (λ f t d. d ∙ e) (λ b t u. u);
}

bind-Fails {ℓ κ} :
    {A : Type ℓ} {B : Type κ} (call : Route A) (next : A → Route B)
    → Fails call
    → Fails (call >>= next)
bind-Fails call next k = record { at = λ s. bind-Post call next s (k.at s) (λ a s' u. absurd u) }

send-Fails {ℓ} : {A : Type ℓ} (f : Failure) → Fails (send {A = A} f)
send-Fails f = record { at = λ s. send-Post f s refl }

-- GitHub's failure, or an observation that was not made
abbrev IsFailed : Observation → Type 0
IsFailed corrupted = Unit
IsFailed (answered f) = Unit
IsFailed moved_head = ⊥
IsFailed (observed summary url) = ⊥

module _ (ports : Ports)
    (down : (t : ℕ) (ref : PullRequestRef) → ports.pull_request t ref ≡ none) where
  observe_at-Post :
      (job : Job) (url : Option (PullRequestRef × Text)) (s : State)
      → Post
          (λ f s'. s'.rows ≡ s.rows)
          (λ o s'. (s'.rows ≡ s.rows) × IsFailed o)
          (observe_at ports job url s)
  observe_at-Post job none s = pure-Post corrupted s (refl, tt)
  observe_at-Post job (some (ref, url)) s =
      bind-Post {Q = λ o s'. (s'.rows ≡ s.rows) × (o ≡ none)} (try λ t. ports.pull_request t ref) _
        s (try-Post (λ t. ports.pull_request t ref) s (refl, down s.tick ref))
        λ summary s' h. pure-Post _ s' (h.0, rw h.1 tt)

  failed-Fails : (job : Job) (o : Observation) → IsFailed o → Fails (asked_observation ports job o)
  failed-Fails job corrupted h = send-Fails _
  failed-Fails job (answered f) h = send-Fails f
  failed-Fails job moved_head h = absurd h
  failed-Fails job (observed summary url) h = absurd h

  ask-Fails : (job : Job) → Fails (ask_github_before_deeming ports job)
  unfolding ask_github_before_deeming observe_pull_request
  ask-Fails job = record {
    at = λ s.
        bind-Post (observe_at ports job (parsed_url job.pull_request_url)) _ s
          (weaken-Post (observe_at-Post job (parsed_url job.pull_request_url) s) (λ f s' e. e)
            (λ o s' h. h))
          λ o s' h. weaken-Post ((failed-Fails job o h.1).at s') (λ f t d. d ∙ h.0) (λ a t u. u);
  }

  asked-Fails :
      (job : Job) (time : Instant)
      → deem_window_has_passed job time ≡ true
      → Fails (asked_if_passed ports job time)
  asked-Fails job time past = rw past (ask-Fails job)

  live-Fails :
      (job : Job)
      → ((t : ℕ) → deem_window_has_passed job (ports.clock t) ≡ true)
      → Fails (apply_live_lapses ports job)
  unfolding apply_live_lapses now
  live-Fails job past = after-Fails _ _ (facts-ReadsOnly ports job) λ facts. record {
    at = λ s.
        bind-Post {Q = λ time s'. (s'.rows ≡ s.rows) × (deem_window_has_passed job time ≡ true)}
          (try ports.clock) _ s (try-Post ports.clock s (refl, past s.tick))
          λ time s' h.
            weaken-Post
              ((bind-Fails _ (lapsed_unless_completed ports job time facts)
                  (asked-Fails job time h.1)).at
                s')
              (λ f t d. d ∙ h.0) (λ a t u. u);
  }

failed_reply {ℓ} :
    {A : Type ℓ} {rows : List (Text × Job)} {r : Reply A × State}
    → Post (λ f s'. s'.rows ≡ rows) (λ a s'. ⊥) r
    → ((f : Failure) × (r.0 ≡ sent f)) × (r.1.rows ≡ rows)
failed_reply (is_sent f s e) = ((f, refl), e)
failed_reply (is_value a s u) = absurd u

-- While GitHub does not answer, a submitted job past its review window is not deemed completed: the
-- load of the job sends an error answer, and no stored job changes.
pub apply_live_lapses-unanswered :
    (ports : Ports) (job : Job) (s : State)
    → ((t : ℕ) (ref : PullRequestRef) → ports.pull_request t ref ≡ none)
    → ((t : ℕ) → deem_window_has_passed job (ports.clock t) ≡ true)
    → ((f : Failure) × ((apply_live_lapses ports job s).0 ≡ sent f))
      × ((apply_live_lapses ports job s).1.rows ≡ s.rows)
apply_live_lapses-unanswered ports job s down past =
    failed_reply ((live-Fails ports down job past).at s)
