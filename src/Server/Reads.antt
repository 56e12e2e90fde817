-- ===== src/Server/Reads.antt =====
-- The actions that leave the jobs' rows alone, one rule for each way to build one.
pub mod Guards
pub mod Checks
use freeagents.Base.{
  if◌then◌else◌, Bool-cases, ℕ, ◌≡◌, refl, ◌∙◌, inl, inr, Bool, true, false, Option, none, some,
  List,
}
use freeagents.Server.Ports.{Failure, State, Ports}
use freeagents.Server.Route.{
  Reply, sent, value, Route, continue, ◌>>=◌, pure, send, try, or_send, ask, send_if, now, store,
  find_job, ◌>>◌,
}

pub record ReadsOnly {ℓ} {A : Type ℓ} (m : Route A) : Type 0 where
  pub at : (s : State) → (m s).1.rows ≡ s.rows

module _ {ℓ} {A : Type ℓ} where
  pub pure-ReadsOnly : (a : A) → ReadsOnly (pure a)
  unfolding pure
  pure-ReadsOnly a = record { at = λ s. refl }

  pub send-ReadsOnly : (r : Failure) → ReadsOnly (send {A = A} r)
  unfolding send
  send-ReadsOnly r = record { at = λ s. refl }

  pub try-ReadsOnly : (call : ℕ → A) → ReadsOnly (try call)
  unfolding try
  try-ReadsOnly call = record { at = λ s. refl }

  pub or_send-ReadsOnly : (r : Failure) (o : Option A) → ReadsOnly (or_send r o)
  unfolding or_send
  or_send-ReadsOnly r none = send-ReadsOnly r
  or_send-ReadsOnly r (some a) = pure-ReadsOnly a

  pub if-ReadsOnly :
      (b : Bool) (m n : Route A) → ReadsOnly m → ReadsOnly n → ReadsOnly (if b then m else n)
  if-ReadsOnly true m n km kn = km
  if-ReadsOnly false m n km kn = kn

module _ {ℓ κ} {A : Type ℓ} {B : Type κ} where
  continue-rows :
      (r : Reply A) (next : A → Route B) (s : State)
      → ((a : A) → ReadsOnly (next a))
      → (continue r next s).1.rows ≡ s.rows
  continue-rows (sent r) next s k = refl
  continue-rows (value a) next s k = (k a).at s

  pub bind-ReadsOnly :
      (call : Route A) (next : A → Route B)
      → ReadsOnly call
      → ((a : A) → ReadsOnly (next a))
      → ReadsOnly (call >>= next)
  unfolding ◌>>=◌
  bind-ReadsOnly call next k kn = record {
    at = λ s. let (r, s') = call s in continue-rows r next s' kn ∙ k.at s;
  }

pub send_if-ReadsOnly : (b : Bool) (r : Failure) → ReadsOnly (send_if b r)
unfolding send_if
send_if-ReadsOnly true r = send-ReadsOnly r
send_if-ReadsOnly false r = pure-ReadsOnly tt

pub ask-ReadsOnly {ℓ} : {A : Type ℓ} (r : Failure) (call : ℕ → Option A) → ReadsOnly (ask r call)
unfolding ask
ask-ReadsOnly r call =
    bind-ReadsOnly (try call) (or_send r) (try-ReadsOnly call) (or_send-ReadsOnly r)

module _ (ports : Ports) where
  pub now-ReadsOnly : ReadsOnly (now ports)
  unfolding now
  now-ReadsOnly = try-ReadsOnly _

  pub store-ReadsOnly {ℓ} :
      {A : Type ℓ} (read : State → A) (put : State → State)
      → ((s : State) → (put s).rows ≡ s.rows)
      → ReadsOnly (store ports read put)
  unfolding store
  store-ReadsOnly read put k = record {
    at = λ s. elim (Bool-cases (ports.storage_fails s.tick)) [
      | inl e ↦ rw e refl
      | inr e ↦ rw e (k _)
    ];
  }

  pub find_job-ReadsOnly : (id : List ℕ) → ReadsOnly (find_job ports id)
  unfolding find_job
  find_job-ReadsOnly id = store-ReadsOnly _ _ (λ s. refl)

pub ruleset reads_rules = (
  pure-ReadsOnly, send-ReadsOnly, try-ReadsOnly, or_send-ReadsOnly, if-ReadsOnly, bind-ReadsOnly,
  send_if-ReadsOnly, ask-ReadsOnly, now-ReadsOnly,
)
