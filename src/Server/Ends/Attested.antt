-- ===== src/Server/Ends/Attested.antt =====
-- What is stored of the attestation where the stage route of `src/api/app.ts` answers with a job.
use mathlib.Core.Path.{subst}
use freeagents.Base.{
  Bool-cases, ◌+◌, ◌≡◌, refl, sym, inl, inr, Option, none, some, Result, err, ok, ◌∙◌, List, [],
  ◌∷◌, ◌++◌, ap, ℕ, ok-injective,
}
use freeagents.Base.Text.{Text}
use freeagents.Base.Table.{Table, get, get-set}
use freeagents.Job.Status.{staged}
use freeagents.Job.Model.{Job, Instant, Repo, JobFault}
use freeagents.Job.Edges.{validate-eq-ok}
use freeagents.Job.Lifecycle.{stage_work}
use freeagents.Server.Ports.{
  Failure, State, Ports, job_body, Success, job_row, receipt, Request, ObserveFault,
  AttestationFault,
}
use freeagents.Server.Route.{
  Route, ◌>>=◌, pure, send, or_send, store, put_row, update_job, Reply, value, no_storage,
}
use freeagents.Server.Post.{Post, is_sent, is_value, bind-Post, pure-Post, or_send-Post, send-Post}
use freeagents.Server.Notices.{nothing, system_row}
use freeagents.Server.Exchange.{persist}
use freeagents.Server.Work.{
  put_attestation, save_attestation, staged_hook, or_thrown, attest, stage_route, appended,
  or_observation, or_attestation,
}
use freeagents.Server.Requests.{answer_of, serve, handle, stage_call}
use freeagents.Server.Ends.{
  Ends, untold-Ends, persist-Ends, try-Ends, ask-Ends, send-Ends, pure-Ends,
}
use freeagents.Server.Terms.{Field}

-- the last attestation of a job, as it is stored, is one of which `Q` holds
abbrev pub IsKept : (Text → Type 0) → Text → Table (List Text) → Type 0
IsKept Q id t =
    (earlier : List Text) × (signed : Text) × (get id t ≡ some (earlier ++ (signed ∷ [])))
    × Q signed

-- what the observer reported of the commit
abbrev pub IsObserved : Ports → Text → Text → Type 0
IsObserved ports commit observation =
    (t : ℕ) × (repo : Repo) × (base : Text) × (login : Text) × (ports.observe t repo commit base
        login
      ≡ ok observation)

-- signed by the platform over what was built from the row and an observation of the commit
abbrev pub IsSigned : Ports → Job → Text → Text → Type 0
IsSigned ports row commit signed =
    (observation : Text) × (attestation : Text) × IsObserved ports commit observation
    × ((t : ℕ) × (ports.build_attestation t row observation ≡ ok attestation))
    × ((t : ℕ) × (ports.sign_attestation t attestation ≡ some signed))

abbrev pub IsAttested : Ports → Job → State → Type 0
IsAttested ports row s =
    (commit : Text) × (row.staged_commit ≡ some commit)
    × IsKept (IsSigned ports row commit) row.id s.attestations

-- an action that keeps what is known of an attestation where it returns a value
record Keeping {ℓ} {A : Type ℓ} (Q : Text → Type 0) (id : Text) (m : Route A) : Type ℓ where
  at :
      (s : State)
      → IsKept Q id s.attestations
      → Post (λ f s'. Unit {0}) (λ a s'. IsKept Q id s'.attestations) (m s)

module _ (Q : Text → Type 0) (id : Text) where
  pure-Keeping {ℓ} : {A : Type ℓ} (a : A) → Keeping Q id (pure a)
  pure-Keeping a = record { at = λ s h. pure-Post a s h }

  or_send-Keeping {ℓ} : {A : Type ℓ} (f : Failure) (o : Option A) → Keeping Q id (or_send f o)
  or_send-Keeping f o = record { at = λ s h. or_send-Post f o s tt (λ a e. h) }

  store-Keeping {ℓ} :
      {A : Type ℓ} (ports : Ports) (read : State → A) (put : State → State)
      → ((s : State) → (put s).attestations ≡ s.attestations)
      → Keeping Q id (store ports read put)
  unfolding store
  store-Keeping ports read put k = record {
    at = λ s h. elim (Bool-cases (ports.storage_fails s.tick)) [
      | inl e ↦ rw e (is_value _ _ h)
      | inr e ↦ rw e (is_value _ _ (subst (IsKept Q id) (sym (k _)) h))
    ];
  }

  bind-Keeping {ℓ κ} :
      {A : Type ℓ} {B : Type κ} (call : Route A) (next : A → Route B)
      → Keeping Q id call
      → ((a : A) → Keeping Q id (next a))
      → Keeping Q id (call >>= next)
  bind-Keeping call next k kn = record {
    at = λ s h. bind-Post call next s (k.at s h) (λ a s' q. (kn a).at s' q);
  }

put_row-attestations :
    (old : Option Job) (job : Job) (s : State) → (put_row old job s).attestations ≡ s.attestations
put_row-attestations none job s = refl
put_row-attestations (some row) job s = refl

-- behind an action about which nothing is known
past-Post {ℓ κ} :
    {A : Type ℓ} {B : Type κ} (Q : B → State → Type 0) (call : Route A) (next : A → Route B)
    (s : State)
    → ((a : A) (s' : State) → Post (λ f t. Unit {0}) Q (next a s'))
    → Post (λ f t. Unit {0}) Q ((call >>= next) s)
past-Post Q call next s k = bind-Post call next s ((untold-Ends call).at s) (λ a s' u. k a s')

module _ (ports : Ports) (Q : Text → Type 0) where
  persist-Keeping : (id : Text) (job : Job) → Keeping Q id (persist ports job (staged_hook ports))
  unfolding persist update_job system_row
  persist-Keeping id job =
      bind-Keeping Q id _ _
        (store-Keeping Q id ports _ _ λ s. put_row-attestations (get job.id s.rows) job s)
        λ stored. bind-Keeping Q id _ _ (or_send-Keeping Q id _ stored) λ found.
          bind-Keeping Q id _ _ (or_send-Keeping Q id _ found) λ row.
            bind-Keeping Q id _ _
              (bind-Keeping Q id _ _ (store-Keeping Q id ports nothing _ λ s. refl)
                λ o. pure-Keeping Q id tt)
              λ u. pure-Keeping Q id _

  put-IsKept :
      (job_id signed : Text) (s : State) (rows : Option (List Text))
      → get job_id s.attestations ≡ rows
      → Q signed
      → IsKept Q job_id (put_attestation job_id signed s).attestations
  put-IsKept job_id signed s none e q =
      ([], signed, get-set job_id _ s.attestations ∙ ap (λ r. some (appended r signed)) e, q)
  put-IsKept job_id signed s (some rows) e q =
      (rows, signed, get-set job_id _ s.attestations ∙ ap (λ r. some (appended r signed)) e, q)

  put-Post :
      (job_id signed : Text) (s : State)
      → Q signed
      → Post {A = Unit {0}}
          (λ f s'. Unit {0})
          (λ u s'. IsKept Q job_id s'.attestations)
          ((store ports (λ s. tt) (put_attestation job_id signed) >>= or_send no_storage) s)
  unfolding store or_send ◌>>=◌ send pure
  put-Post job_id signed s q = elim (Bool-cases (ports.storage_fails s.tick)) [
    | inl e ↦ rw e (is_sent _ _ tt)
    | inr e ↦
        rw e (is_value _ _ (put-IsKept job_id signed (record s { tick = s.tick + 1 }) _ refl q))
  ]

  save-Post :
      (job_id signed : Text) (s : State)
      → Q signed
      → Post
          (λ f s'. Unit {0})
          (λ u s'. IsKept Q job_id s'.attestations)
          (save_attestation ports job_id signed s)
  unfolding save_attestation
  save-Post job_id signed s q =
      past-Post _ _ _ s λ refused s₁. past-Post _ _ _ s₁ λ u s₂. put-Post job_id signed s₂ q

value_fact :
    {Q : Success → State → Type 0} {a : Success} {t : State}
    → Post (λ f t. Unit {0}) Q (value a, t)
    → Q a t
value_fact (is_value a t q) = q

observation-Ends :
    (tried : Result ObserveFault Text) → Ends (λ o. tried ≡ ok o) (or_observation tried)
observation-Ends (err fault) = send-Ends _ _
observation-Ends (ok o) = pure-Ends _ o refl

attestation-Ends :
    (built : Result AttestationFault Text) → Ends (λ a. built ≡ ok a) (or_attestation built)
attestation-Ends (err fault) = send-Ends _ _
attestation-Ends (ok a) = pure-Ends _ a refl

thrown-Post :
    (r : Result JobFault Job) (s : State) → Post (λ f t. Unit {0}) (λ b t. r ≡ ok b) (or_thrown r s)
thrown-Post (err fault) s = send-Post _ s tt
thrown-Post (ok b) s = pure-Post b s refl

stage_work_lem :
    (job : Job) (commit : Text) (time : Instant) (b : Job)
    → stage_work job commit time ≡ ok b
    → (job.id ≡ b.id) × (b.staged_commit ≡ some commit)
unfolding stage_work
stage_work_lem job commit time b e =
    let (edge, h) = validate-eq-ok job.status staged _ e in
    let same = ok-injective JobFault h in
    (ap (λ (j : Job). j.id) same, sym (ap (λ (j : Job). j.staged_commit) same))

module _ (ports : Ports) where
  attest-Post :
      (job : Job) (repo : Repo) (base login commit : Text) (next : Job) (s : State)
      → Post
          (λ f t. Unit {0})
          (λ u t. IsKept (IsSigned ports next commit) job.id t.attestations)
          (attest ports job repo base login commit next s)
  unfolding attest
  attest-Post job repo base login commit next s = bind-Post _ _ s ((try-Ends _).at s) λ tried s₁ q.
      bind-Post _ _ s₁ ((observation-Ends tried).at s₁) λ o s₂ e.
        bind-Post _ _ s₂ ((try-Ends _).at s₂) λ built s₃ b.
          bind-Post _ _ s₃ ((attestation-Ends built).at s₃) λ attestation s₄ d.
            bind-Post _ _ s₄ ((ask-Ends _ _).at s₄) λ signed s₅ seal.
              save-Post ports _ job.id signed s₅
                (o, attestation, (q.0, repo, base, login, q.1 ∙ e), (b.0, b.1 ∙ d), seal)

  abbrev ShowsAttested : Success → State → Type 0
  ShowsAttested a s = (row : Job) → a ≡ job_row row → IsAttested ports row s

  persist-Post :
      (job : Job) (commit : Text) (s : State)
      → job.staged_commit ≡ some commit
      → IsKept (IsSigned ports job commit) job.id s.attestations
      → Post (λ f t. Unit {0}) ShowsAttested (persist ports job (staged_hook ports) s)
  persist-Post job commit s named h =
      both ((persist-Ends ports job (staged_hook ports)).at s)
        ((persist-Keeping ports (IsSigned ports job commit) job.id job).at s h)
    where
      both :
          {r : Reply Success × State}
          → Post (λ f t. Unit {0}) (λ a t. a ≡ job_row job) r
          → Post
              (λ f t. Unit {0})
              (λ a t. IsKept (IsSigned ports job commit) job.id t.attestations)
              r
          → Post (λ f t. Unit {0}) ShowsAttested r
      both (is_sent f t u) k = is_sent f t tt
      both (is_value a t e) k = is_value a t λ row shown.
          let same : job ≡ row = cc (sym e ∙ shown) in
          subst (λ (x : Job). IsAttested ports x t) same (commit, named, value_fact k)

  stage-Post :
      (id : Text) (who : Request) (field : Field Text) (s : State)
      → Post (λ f t. Unit {0}) ShowsAttested (stage_route ports id who field s)
  unfolding stage_route
  stage-Post id who field s = past-Post _ _ _ s λ gate s₁. past-Post _ _ _ s₁ λ commit s₂.
      past-Post _ _ _ s₂ λ u s₃. past-Post _ _ _ s₃ λ staging s₄. past-Post _ _ _ s₄ λ row s₅.
        past-Post _ _ _ s₅ λ login s₆. past-Post _ _ _ s₆ λ v s₇. past-Post _ _ _ s₇ λ time s₈.
          bind-Post _ _ s₈ (thrown-Post (stage_work gate.loaded.job commit time) s₈) λ next s₉ e.
            let (same, named) = stage_work_lem gate.loaded.job commit time next e in
            bind-Post _ _ s₉ (attest-Post gate.loaded.job _ _ login commit next s₉) λ w t h.
              persist-Post next commit t named
                (subst (λ (x : Text). IsKept (IsSigned ports next commit) x t.attestations) same h)

stored_reply :
    (ports : Ports) {row : Job} {r : Reply Success × State}
    → Post (λ f t. Unit {0}) (ShowsAttested ports) r
    → (answer_of r.0).body ≡ job_body row
    → IsAttested ports row r.1
stored_reply ports (is_sent f t u) e = cc
stored_reply ports {row = row} (is_value (job_row job) t q) e = q row (cc)
stored_reply ports (is_value (receipt job credential) t q) e = cc

-- A job that the stage route answers names a staged commit, and the last attestation that is stored
-- for the job was signed by the platform over what was built from this row and from a report of the
-- observer on this commit.
pub stage_call-IsAttested :
    (ports : Ports) (id : Text) (who : Request) (commit : Field Text) (s : State) {row : Job}
    → (serve ports id who (stage_call commit) s).0.body ≡ job_body row
    → IsAttested ports row (serve ports id who (stage_call commit) s).1
unfolding serve handle
stage_call-IsAttested ports id who commit s e =
    stored_reply ports (stage-Post ports id who commit s) e
