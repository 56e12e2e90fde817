-- ===== src/Server/Post.antt =====
-- What holds after an action: `E` of an answer that was sent and the state behind it, `Q` of a
-- value that was returned and the state behind it. One rule for each way to build an action.
use freeagents.Base.{ℕ, Bool, true, false, ◌+◌, Option, none, some, ◌≡◌, refl, if◌then◌else◌}
use freeagents.Server.Ports.{Failure, State}
use freeagents.Server.Route.{Reply, sent, value, Route, continue, ◌>>=◌, pure, send, try, or_send}

pub data Post {ℓ} {A : Type ℓ} (E : Failure → State → Type 0) (Q : A → State → Type 0)
    : Reply A × State → Type ℓ where
  is_sent : (r : Failure) (s : State) → E r s → Post E Q (sent r, s)
  is_value : (a : A) (s : State) → Q a s → Post E Q (value a, s)

module _ {ℓ κ} {A : Type ℓ} {B : Type κ} {E : Failure → State → Type 0} where
  continue-Post :
      {Q : A → State → Type 0} {R : B → State → Type 0} {r : Reply A × State} (next : A → Route B)
      → Post E Q r
      → ((a : A) (s : State) → Q a s → Post E R (next a s))
      → Post E R (continue r.0 next r.1)
  continue-Post next (is_sent r s e) rest = is_sent r s e
  continue-Post next (is_value a s q) rest = rest a s q

  pub bind-Post :
      {Q : A → State → Type 0} {R : B → State → Type 0} (call : Route A) (next : A → Route B)
      (s : State)
      → Post E Q (call s)
      → ((a : A) (s' : State) → Q a s' → Post E R (next a s'))
      → Post E R ((call >>= next) s)
  unfolding ◌>>=◌
  bind-Post call next s h rest = continue-Post next h rest

module _ {ℓ} {A : Type ℓ} {E : Failure → State → Type 0} {Q : A → State → Type 0} where
  pub pure-Post : (a : A) (s : State) → Q a s → Post E Q (pure a s)
  unfolding pure
  pure-Post a s q = is_value a s q

  pub send-Post : (r : Failure) (s : State) → E r s → Post E Q (send r s)
  unfolding send
  send-Post r s e = is_sent r s e

  pub try-Post :
      (call : ℕ → A) (s : State)
      → Q (call s.tick) (record s { tick = s.tick + 1 })
      → Post E Q (try call s)
  unfolding try
  try-Post call s q = is_value _ _ q

  pub or_send-Post :
      (r : Failure) (o : Option A) (s : State)
      → E r s
      → ((a : A) → o ≡ some a → Q a s)
      → Post E Q (or_send r o s)
  unfolding or_send send pure
  or_send-Post r none s e q = is_sent r s e
  or_send-Post r (some a) s e q = is_value a s (q a refl)

  -- A stronger postcondition gives a weaker one.
  pub weaken-Post :
      {E' : Failure → State → Type 0} {Q' : A → State → Type 0} {r : Reply A × State}
      → Post E' Q' r
      → ((a : Failure) (s : State) → E' a s → E a s)
      → ((a : A) (s : State) → Q' a s → Q a s)
      → Post E Q r
  weaken-Post (is_sent r s e) we wq = is_sent r s (we r s e)
  weaken-Post (is_value a s q) we wq = is_value a s (wq a s q)

  pub if-Post :
      (b : Bool) (m n : Route A) (s : State)
      → (b ≡ true → Post E Q (m s))
      → (b ≡ false → Post E Q (n s))
      → Post E Q ((if b then m else n) s)
  if-Post true m n s km kn = km refl
  if-Post false m n s km kn = kn refl
