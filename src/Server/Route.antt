-- ===== src/Server/Route.antt =====
-- A handler as an action on the state: a call answers a value, or the response is sent and the
-- handler returns. What was written before stays written.
use freeagents.Base.{ℕ, Bool, true, false, ◌+◌, Option, none, some, if◌then◌else◌}
use freeagents.Base.Text.{Text}
use freeagents.Base.Table.{get, set}
use freeagents.Job.Model.{Instant, Job}
use freeagents.Server.Ports.{Failure, Refusal, storage_unavailable, internal_error, State, Ports}

pub data Reply {ℓ} (A : Type ℓ) : Type ℓ where
  sent : Failure → Reply A
  value : A → Reply A

abbrev pub Route {ℓ} : Type ℓ → Type ℓ
Route A = State → Reply A × State

module _ {ℓ κ} {A : Type ℓ} {B : Type κ} where
  abbrev pub continue : Reply A → (A → Route B) → Route B
  continue (sent r) next s = (sent r, s)
  continue (value a) next s = next a s

  infixl 5 ◌>>=◌ ◌>>◌
  unfoldable pub ◌>>=◌ : Route A → (A → Route B) → Route B
  ◌>>=◌ call next s = let (r, s') = call s in continue r next s'

  abbrev pub ◌>>◌ : Route A → Route B → Route B
  call >> next = call >>= λ _. next

abbrev pub error : ℕ → Refusal → Failure
error code refusal = record { status = code; refusal = refusal }

module _ {ℓ} {A : Type ℓ} where
  unfoldable pub pure : A → Route A
  pure a s = (value a, s)

  -- `res.status(code).json({ error }); return;`
  unfoldable pub send : Failure → Route A
  send r s = (sent r, s)

  -- A call that may throw, its error kept for the caller.
  unfoldable pub try : (ℕ → A) → Route A
  try call s = (value (call s.tick), record s { tick = s.tick + 1 })

  -- A value, or the answer in place of `null`.
  unfoldable pub or_send : Failure → Option A → Route A
  or_send r none = send r
  or_send r (some a) = pure a

-- A call with a `catch` that answers.
unfoldable pub ask {ℓ} : {A : Type ℓ} → Failure → (ℕ → Option A) → Route A
ask r call = do a ← try call; or_send r a

-- a guard: `if (test) { res.status(...).json(...); return; }`
unfoldable pub send_if : Bool → Failure → Route (Unit {0})
send_if true r = send r
send_if false r = pure tt

-- An error that no handler catches reaches the terminal handler.
abbrev pub thrown : Failure
thrown = error 500 internal_error

abbrev pub no_storage : Failure
no_storage = error 503 storage_unavailable

module _ (ports : Ports) where
  unfoldable pub now : Route Instant
  now = try ports.clock

  -- The value of a repository's call on the state, `none` if it throws; `put` writes.
  unfoldable pub store {ℓ} : {A : Type ℓ} → (State → A) → (State → State) → Route (Option A)
  store read put s =
      let later = record s { tick = s.tick + 1 } in
      if ports.storage_fails s.tick then (value none, later) else (value (some (read s)), put later)

abbrev pub same_state : State → State
same_state s = s

abbrev pub write_row : Job → State → State
write_row job s = record s { rows = set job.id job s.rows }

abbrev pub put_row : Option Job → Job → State → State
put_row none job s = s
put_row (some old) job s = write_row job s

abbrev pub replaced : Option Job → Job → Option Job
replaced none job = none
replaced (some old) job = some job

module _ (ports : Ports) where
  -- `jobRepo.findById`
  unfoldable pub find_job : Text → Route (Option (Option Job))
  find_job id = store ports (λ s. get id s.rows) same_state

  -- `jobRepo.update`, and `jobRepo.complete`, which stores the row alike
  unfoldable pub update_job : Job → Route (Option (Option Job))
  update_job job =
      store ports (λ s. replaced (get job.id s.rows) job) (λ s. put_row (get job.id s.rows) job s)
