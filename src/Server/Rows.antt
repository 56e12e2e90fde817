-- ===== src/Server/Rows.antt =====
-- What handlers do to the stored jobs: a property of jobs that every change keeps, as an invariant
-- of the rows, with one rule for each way to build an action.
pub mod Sound
pub mod Routes
pub mod Work
pub mod Confirm
pub mod Requests
use mathlib.Core.Path.{subst}
use freeagents.Base.{
  if◌then◌else◌, Bool-cases, ◌≡◌, inl, inr, Bool, true, false, Option, none, some, ◌+◌, sym, [],
  ◌∷◌,
}
use freeagents.Base.Text.{Text, text_eq, text_eq_iff}
use freeagents.Base.Table.{get, set, get-set, get-set_other, Table, delete}
use freeagents.Job.Model.{Rail, Job}
use freeagents.Job.Step.{Step}
use freeagents.Server.Ports.{Failure, State, Ports}
use freeagents.Server.Route.{
  Reply, sent, value, Route, ◌>>=◌, ◌>>◌, pure, send, or_send, store, put_row, replaced, find_job,
  update_job, same_state,
}
use freeagents.Server.Post.{Post, is_sent, is_value, bind-Post, pure-Post, send-Post, or_send-Post}
use freeagents.Server.Reads.{ReadsOnly}

-- A step of the hire loop, or the rail that the deposit's row gives to an open quote.
pub data Change (sha : Text → Text) (job : Job) : Job → Type 0 where
  steps : {next : Job} → Step sha job next → Change sha job next
  fills_rail : (rail : Rail) → job.rail ≡ none → Change sha job (record job { rail = some rail })

abbrev pub AllIn : (Job → Type 0) → Table Job → Type 0
AllIn P [] = Unit
AllIn P ((id, job) ∷ rows) = P job × AllIn P rows

pub record AllRows (P : Job → Type 0) (s : State) : Type 0 where
  pub at : AllIn P s.rows

pub get-AllIn :
    (P : Job → Type 0) (id : Text) (rows : Table Job) {job : Job}
    → AllIn P rows
    → get id rows ≡ some job
    → P job
unfolding get
get-AllIn P id [] h e = cc
get-AllIn P id ((key, row) ∷ rows) h e = elim (Bool-cases (text_eq key id)) [
  | inl same ↦ let stored : some row ≡ some _ = rw same at e in subst P (cc) h.0
  | inr apart ↦ get-AllIn P id rows h.1 (rw apart at e)
]

delete-AllIn :
    (P : Job → Type 0) (id : Text) (rows : Table Job) → AllIn P rows → AllIn P (delete id rows)
unfolding delete
delete-AllIn P id [] h = tt
delete-AllIn P id ((key, row) ∷ rows) h = elim (Bool-cases (text_eq key id)) [
  | inl same ↦ rw same (delete-AllIn P id rows h.1)
  | inr apart ↦ rw apart (h.0, delete-AllIn P id rows h.1)
]

module _ (P : Job → Type 0) where
  pub record Keeps {ℓ} {A : Type ℓ} (Q : A → Type 0) (m : Route A) : Type ℓ where
    pub at :
        (s : State) → AllRows P s → Post (λ r s'. AllRows P s') (λ a s'. AllRows P s' × Q a) (m s)

abbrev pub Any {ℓ} : {A : Type ℓ} → A → Type 0
Any a = Unit

-- a row that was read or written
abbrev pub IsFound : (Job → Type 0) → Option (Option Job) → Type 0
IsFound P o = (row : Job) → o ≡ some (some row) → P row

module _ {ℓ} (P : Job → Type 0) {A : Type ℓ} where
  reply-Post :
      (r : Reply A) (s : State)
      → AllRows P s
      → Post (λ r s'. AllRows P s') (λ a s'. AllRows P s' × Any a) (r, s)
  reply-Post (sent r) s h = is_sent r s h
  reply-Post (value a) s h = is_value a s (h, tt)

  pub reads-Keeps : (m : Route A) → ReadsOnly m → Keeps P Any m
  reads-Keeps m k = record {
    at = λ s h.
        let (r, s') = m s in reply-Post r s' (record { at = subst (AllIn P) (sym (k.at s)) h.at });
  }

  pub pure-Keeps : (Q : A → Type 0) (a : A) → Q a → Keeps P Q (pure a)
  pure-Keeps Q a q = record { at = λ s h. pure-Post a s (h, q) }

  pub send-Keeps : (Q : A → Type 0) (r : Failure) → Keeps P Q (send r)
  send-Keeps Q r = record { at = λ s h. send-Post r s h }

  pub or_send-Keeps :
      (Q : A → Type 0) (r : Failure) (o : Option A)
      → ((a : A) → o ≡ some a → Q a)
      → Keeps P Q (or_send r o)
  or_send-Keeps Q r o q = record { at = λ s h. or_send-Post r o s h (λ a e. (h, q a e)) }

  pub if-Keeps :
      (Q : A → Type 0) (b : Bool) (m n : Route A)
      → Keeps P Q m
      → Keeps P Q n
      → Keeps P Q (if b then m else n)
  if-Keeps Q true m n km kn = km
  if-Keeps Q false m n km kn = kn

module _ {ℓ κ} (P : Job → Type 0) {A : Type ℓ} {B : Type κ} where
  pub bind-Keeps :
      (R : A → Type 0) (Q : B → Type 0) (call : Route A) (next : A → Route B)
      → Keeps P R call
      → ((a : A) → R a → Keeps P Q (next a))
      → Keeps P Q (call >>= next)
  bind-Keeps R Q call next k kn = record {
    at = λ s h. bind-Post call next s (k.at s h) (λ a s' q. (kn a q.1).at s' q.0);
  }

  -- behind an action that leaves the rows alone
  pub after-Keeps :
      (Q : B → Type 0) (call : Route A) (next : A → Route B)
      → ReadsOnly call
      → ((a : A) → Keeps P Q (next a))
      → Keeps P Q (call >>= next)
  after-Keeps Q call next k kn = bind-Keeps Any Q call next (reads-Keeps P call k) (λ a u. kn a)

module _ (P : Job → Type 0) (ports : Ports) where
  put_row-AllRows :
      (old : Option Job) (s : State) (job : Job)
      → AllRows P s
      → P job
      → AllRows P (put_row old job s)
  put_row-AllRows none s job h p = h
  put_row-AllRows (some row) s job h p = record {
    at = unfold set in (p, delete-AllIn P job.id s.rows h.at);
  }

  pub update-Keeps : (job : Job) → P job → Keeps P (IsFound P) (update_job ports job)
  unfolding update_job store
  update-Keeps job p = record { at = λ s h. updated s h }
    where
      replaced_row :
          (old : Option Job) (row : Job)
          → ◌≡◌ {A = Option (Option Job)} (some (replaced old job)) (some (some row))
          → P row
      replaced_row none row e = cc
      replaced_row (some old) row e = subst P (cc) p

      updated :
          (s : State)
          → AllRows P s
          → Post
              (λ r s'. AllRows P s')
              (λ a s'. AllRows P s' × IsFound P a)
              (update_job ports job s)
      updated s h = elim (Bool-cases (ports.storage_fails s.tick)) [
        | inl e ↦ rw e (is_value _ _ (record { at = h.at }, λ row k. cc))
        | inr e ↦ rw e (
            is_value _ _ (
              put_row-AllRows (get job.id s.rows) (record s { tick = s.tick + 1 }) job
                  (record { at = h.at }) p,
              replaced_row (get job.id s.rows),
            ))
      ]

  pub store-Keeps {ℓ} :
      {A : Type ℓ} (Q : Option A → Type 0) (read : State → A)
      → Q none
      → ((s : State) → AllRows P s → Q (some (read s)))
      → Keeps P Q (store ports read same_state)
  unfolding store
  store-Keeps Q read failed found = record {
    at = λ s h. elim (Bool-cases (ports.storage_fails s.tick)) [
      | inl e ↦ rw e (is_value _ _ (record { at = h.at }, failed))
      | inr e ↦ rw e (is_value _ _ (record { at = h.at }, found s h))
    ];
  }

  pub find-Keeps : (id : Text) → Keeps P (IsFound P) (find_job ports id)
  unfolding find_job
  find-Keeps id =
      store-Keeps (IsFound P) (λ s. get id s.rows) (λ row k. cc)
        (λ s h row k. get-AllIn P id s.rows h.at (cc))
