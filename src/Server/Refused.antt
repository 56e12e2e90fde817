-- ===== src/Server/Refused.antt =====
-- Error answers and the stored jobs: behind the load, a route writes a job only where it goes on
-- to answer with one.
pub mod Hooks
pub mod Routes
pub mod Confirm
pub mod Answers
use freeagents.Base.{
  if◌then◌else◌, Bool-cases, Result, ℕ, ◌+◌, ◌≡◌, refl, ◌∙◌, ◌⊎◌, inl, inr, Bool, true, false,
  Option, none, some, List,
}
use freeagents.Base.Text.{Text}
use freeagents.Base.Table.{get}
use freeagents.Job.Model.{Job, JobFault}
use freeagents.Server.Ports.{not_found, job_body, State, Ports, job_row}
use freeagents.Server.Route.{
  Reply, sent, value, Route, ◌>>=◌, ◌>>◌, error, pure, send, try, or_send, no_storage, store,
  put_row, replaced, update_job,
}
use freeagents.Server.Post.{Post, is_sent, is_value, bind-Post, pure-Post, try-Post, weaken-Post}
use freeagents.Server.Exchange.{PaymentGate, Hook, persist, apply_and_persist}
use freeagents.Server.Reads.{ReadsOnly}
use freeagents.Server.Reads.Checks.{or_fault-ReadsOnly, paid_gate-ReadsOnly}

-- an action that never sends an error answer
pub record Silent {ℓ} {A : Type ℓ} (m : Route A) : Type ℓ where
  pub at : (s : State) → Post (λ f s'. ⊥) (λ a s'. Unit {0}) (m s)

-- an action whose error answers leave the rows as they were
pub record Refuses {ℓ} {A : Type ℓ} (m : Route A) : Type ℓ where
  pub at : (s : State) → Post (λ f s'. s'.rows ≡ s.rows) (λ a s'. Unit {0}) (m s)

module _ {ℓ} {A : Type ℓ} where
  pub pure-Silent : (a : A) → Silent (pure a)
  pure-Silent a = record { at = λ s. pure-Post a s tt }

  pub try-Silent : (call : ℕ → A) → Silent (try call)
  try-Silent call = record { at = λ s. try-Post call s tt }

  pub if-Silent : (b : Bool) (m n : Route A) → Silent m → Silent n → Silent (if b then m else n)
  if-Silent true m n km kn = km
  if-Silent false m n km kn = kn

  pub store-Silent :
      (ports : Ports) (read : State → A) (put : State → State) → Silent (store ports read put)
  unfolding store
  store-Silent ports read put = record {
    at = λ s. elim (Bool-cases (ports.storage_fails s.tick)) [
      | inl e ↦ rw e (is_value _ _ tt)
      | inr e ↦ rw e (is_value _ _ tt)
    ];
  }

  -- the rows behind an action that leaves them alone, answered or not
  pub reads-Post :
      (m : Route A) (r : List (Text × Job)) (s : State)
      → ReadsOnly m
      → s.rows ≡ r
      → Post (λ f s'. s'.rows ≡ r) (λ a s'. s'.rows ≡ r) (m s)
  reads-Post m r s k e = let (a, s') = m s in reply-Post a s' (k.at s ∙ e)
    where
      reply-Post :
          (a : Reply A) (s' : State)
          → s'.rows ≡ r
          → Post (λ f s'. s'.rows ≡ r) (λ a s'. s'.rows ≡ r) (a, s')
      reply-Post (sent f) s' h = is_sent f s' h
      reply-Post (value a) s' h = is_value a s' h

  pub reads-Refuses : (m : Route A) → ReadsOnly m → Refuses m
  reads-Refuses m k = record {
    at = λ s. weaken-Post (reads-Post m s.rows s k refl) (λ f s' e. e) (λ a s' e. tt);
  }

  pub if-Refuses : (b : Bool) (m n : Route A) → Refuses m → Refuses n → Refuses (if b then m else n)
  if-Refuses true m n km kn = km
  if-Refuses false m n km kn = kn

module _ {ℓ κ} {A : Type ℓ} {B : Type κ} where
  pub bind-Silent :
      (call : Route A) (next : A → Route B)
      → Silent call
      → ((a : A) → Silent (next a))
      → Silent (call >>= next)
  bind-Silent call next k kn = record {
    at = λ s. bind-Post call next s (k.at s) (λ a s' u. (kn a).at s');
  }

  pub after-Refuses :
      (call : Route A) (next : A → Route B)
      → ReadsOnly call
      → ((a : A) → Refuses (next a))
      → Refuses (call >>= next)
  after-Refuses call next k kn = record {
    at = λ s.
        bind-Post call next s (reads-Post call s.rows s k refl)
          λ a s' e. weaken-Post ((kn a).at s') (λ f t d. d ∙ e) (λ b t u. tt);
  }

pub ruleset silent_rules = (pure-Silent, try-Silent, if-Silent, store-Silent, bind-Silent)

module _ (ports : Ports) where
  -- what `jobRepo.update` answers, where it wrote nothing
  update-Post :
      (job : Job) (s : State)
      → Post
          (λ f s'. ⊥)
          (λ o s'. (s'.rows ≡ s.rows) ⊎ ((row : Job) × (o ≡ some (some row))))
          (update_job ports job s)
  unfolding update_job store
  update-Post job s = elim (Bool-cases (ports.storage_fails s.tick)) [
    | inl e ↦ rw e (is_value _ _ (inl refl))
    | inr e ↦ rw e (is_value _ _ (written (get job.id s.rows)))
  ]
    where
      written :
          (old : Option Job)
          → ((put_row old job (record s { tick = s.tick + 1 })).rows ≡ s.rows)
            ⊎ ((row : Job) × (◌≡◌ {A = Option (Option Job)}
                  (some (replaced old job))
                  (some (some row))))
      written none = inl refl
      written (some old) = inr (job, refl)

  found_row-Refuses :
      (o : Option (Option Job)) (hook : Hook) (s₀ s : State)
      → (s.rows ≡ s₀.rows) ⊎ ((row : Job) × (o ≡ some (some row)))
      → ((row : Job) → Silent (hook row))
      → Post
          (λ f s'. s'.rows ≡ s₀.rows)
          (λ a s'. Unit {0})
          ((do
            found ← or_send no_storage o
            row ← or_send (error 404 not_found) found
            hook row
            pure (job_row row))
            s)
  unfolding or_send send pure ◌>>=◌
  found_row-Refuses none hook s₀ s (inl e) kh = is_sent _ _ e
  found_row-Refuses none hook s₀ s (inr (row, e)) kh = cc
  found_row-Refuses (some none) hook s₀ s (inl e) kh = is_sent _ _ e
  found_row-Refuses (some none) hook s₀ s (inr (row, e)) kh = cc
  found_row-Refuses (some (some row)) hook s₀ s h kh =
      weaken-Post ((bind-Silent (hook row) _ (kh row) λ u. pure-Silent (job_row row)).at s)
        (λ f s' e. absurd e) (λ a s' u. tt)

  pub persist-Refuses :
      (job : Job) (hook : Hook)
      → ((row : Job) → Silent (hook row))
      → Refuses (persist ports job hook)
  unfolding persist
  persist-Refuses job hook kh = record {
    at = λ s.
        bind-Post (update_job ports job) _ s
          (weaken-Post (update-Post job s) (λ f s' e. absurd e) (λ a s' h. h))
          λ o s' h. found_row-Refuses o hook s s' h kh;
  }

  pub apply-Refuses :
      (current : Job) (apply : Job → Result JobFault Job) (gate : Option PaymentGate) (hook : Hook)
      → ((row : Job) → Silent (hook row))
      → Refuses (apply_and_persist ports current apply gate hook)
  unfolding apply_and_persist
  apply-Refuses current apply gate hook kh = after-Refuses _ _ (or_fault-ReadsOnly _) λ updated.
      after-Refuses _ _ (paid_gate-ReadsOnly ports gate current updated)
        λ u. persist-Refuses updated hook kh
