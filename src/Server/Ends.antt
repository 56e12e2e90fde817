-- ===== src/Server/Ends.antt =====
-- What holds whenever an action returns a value rather than an error answer, one rule for each
-- way to build one.
pub mod Money
pub mod Answers
pub mod Seats
pub mod Attested
pub mod Completed
pub mod Merged
use mathlib.Core.Path.{subst}
use freeagents.Base.{
  if◌then◌else◌, Bool-cases, ℕ, ◌≡◌, refl, sym, ap, ◌∙◌, inl, inr, Bool, true, false, not, Option,
  none, some,
}
use freeagents.Base.Text.{Text}
use freeagents.Base.Table.{get}
use freeagents.Job.Model.{Job}
use freeagents.Server.Ports.{Leg, job_body, Failure, State, Ports, job_row}
use freeagents.Server.Route.{
  Reply, sent, value, Route, ◌>>=◌, ◌>>◌, pure, send, try, or_send, ask, send_if, store, replaced,
  update_job,
}
use freeagents.Server.Post.{
  Post, is_sent, is_value, bind-Post, pure-Post, send-Post, try-Post, or_send-Post, weaken-Post,
}
use freeagents.Server.Exchange.{Hook, persist}
use freeagents.Server.Rows.{Any}

pub record Ends {ℓ} {A : Type ℓ} (Q : A → Type 0) (m : Route A) : Type ℓ where
  pub at : (s : State) → Post (λ f s'. Unit {0}) (λ a s'. Q a) (m s)

module _ {ℓ} {A : Type ℓ} where
  reply-Post : (r : Reply A) (s : State) → Post (λ f s'. Unit {0}) (λ a s'. Any a) (r, s)
  reply-Post (sent f) s = is_sent f s tt
  reply-Post (value a) s = is_value a s tt

  pub untold-Ends : (m : Route A) → Ends Any m
  untold-Ends m = record { at = λ s. let (r, s') = m s in reply-Post r s' }

  pub pure-Ends : (Q : A → Type 0) (a : A) → Q a → Ends Q (pure a)
  pure-Ends Q a q = record { at = λ s. pure-Post a s q }

  pub send-Ends : (Q : A → Type 0) (f : Failure) → Ends Q (send f)
  send-Ends Q f = record { at = λ s. send-Post f s tt }

  pub either-Ends :
      (Q : A → Type 0) (b : Bool) (m n : Route A)
      → Ends Q m
      → Ends Q n
      → Ends Q (if b then m else n)
  either-Ends Q true m n km kn = km
  either-Ends Q false m n km kn = kn

  pub weaken-Ends : (R Q : A → Type 0) (m : Route A) → Ends R m → ((a : A) → R a → Q a) → Ends Q m
  weaken-Ends R Q m k w = record { at = λ s. weaken-Post (k.at s) (λ f s' u. tt) (λ a s' r. w a r) }

  pub if-Ends :
      (Q : A → Type 0) (b : Bool) (m n : Route A)
      → (b ≡ true → Ends Q m)
      → (b ≡ false → Ends Q n)
      → Ends Q (if b then m else n)
  if-Ends Q true m n km kn = km refl
  if-Ends Q false m n km kn = kn refl

module _ {ℓ κ} {A : Type ℓ} {B : Type κ} where
  pub bind-Ends :
      (R : A → Type 0) (Q : B → Type 0) (call : Route A) (next : A → Route B)
      → Ends R call
      → ((a : A) → R a → Ends Q (next a))
      → Ends Q (call >>= next)
  bind-Ends R Q call next k kn = record {
    at = λ s. bind-Post call next s (k.at s) (λ a s' q. (kn a q).at s');
  }

  -- behind an action about which nothing is known
  pub past-Ends :
      (Q : B → Type 0) (call : Route A) (next : A → Route B)
      → ((a : A) → Ends Q (next a))
      → Ends Q (call >>= next)
  past-Ends Q call next kn = bind-Ends Any Q call next (untold-Ends call) (λ a u. kn a)

module _ {A : Type 0} where
  pub try-Ends : (call : ℕ → A) → Ends (λ a. (t : ℕ) × (call t ≡ a)) (try call)
  try-Ends call = record { at = λ s. try-Post call s (s.tick, refl) }

  pub or_send-Ends : (f : Failure) (o : Option A) → Ends (λ a. o ≡ some a) (or_send f o)
  or_send-Ends f o = record { at = λ s. or_send-Post f o s tt (λ a e. e) }

pub value-Post {ℓ} :
    {A : Type ℓ} {Q : A → Type 0} {r : Reply A × State} {a : A} {s : State}
    → Post (λ f s'. Unit {0}) (λ b s'. Q b) r
    → r ≡ (value a, s)
    → Q a
value-Post (is_sent f t u) e = cc
value-Post {Q = Q} (is_value b t q) e = subst Q (cc) q

pub send_if-Ends : (b : Bool) (f : Failure) → Ends (λ u. b ≡ false) (send_if b f)
unfolding send_if
send_if-Ends true f = send-Ends _ f
send_if-Ends false f = pure-Ends _ tt refl

pub ask-Ends :
    {A : Type 0} (f : Failure) (call : ℕ → Option A)
    → Ends (λ a. (t : ℕ) × (call t ≡ some a)) (ask f call)
unfolding ask
ask-Ends f call =
    bind-Ends _ _ (try call) (or_send f) (try-Ends call)
      λ o q. record { at = λ s. or_send-Post f o s tt (λ a e. (q.0, q.1 ∙ e)) }

-- the gate said at some time of the request that the leg is settled
abbrev pub IsPaid : Ports → Leg → Text → Type 0
IsPaid ports leg id = (t : ℕ) × (ports.gate t leg id ≡ some true)

pub is_settled-eq : (b : Bool) → not b ≡ false → b ≡ true
is_settled-eq true e = refl
is_settled-eq false e = sym e

module _ (ports : Ports) where
  pub update-Ends :
      (job : Job) → Ends (λ o. (row : Job) → o ≡ some (some row) → row ≡ job) (update_job ports job)
  unfolding update_job store
  update-Ends job = record {
    at = λ s. elim (Bool-cases (ports.storage_fails s.tick)) [
      | inl e ↦ rw e (is_value _ _ (λ row k. cc))
      | inr e ↦ rw e (is_value _ _ (written (get job.id s.rows)))
    ];
  }
    where
      written :
          (old : Option Job) (row : Job)
          → ◌≡◌ {A = Option (Option Job)} (some (replaced old job)) (some (some row))
          → row ≡ job
      written none row e = cc
      written (some old) row e = cc

  -- a row that is answered is the one that was written
  pub persist-Ends :
      (job : Job) (hook : Hook) → Ends (λ a. a ≡ job_row job) (persist ports job hook)
  unfolding persist
  persist-Ends job hook = bind-Ends _ _ _ _ (update-Ends job) λ stored q.
      bind-Ends _ _ _ _ (or_send-Ends _ stored) λ found e.
        bind-Ends _ _ _ _ (or_send-Ends _ found) λ row k.
          past-Ends _ (hook row) _
            λ u. pure-Ends _ _ (ap (λ (j : Job). job_row j) (q row (e ∙ ap some k)))
