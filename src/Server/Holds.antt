-- ===== src/Server/Holds.antt =====
-- What holds a payment leg whose price already reached the owner: `railHeldByShortPayment`,
-- `railHoldingLeg`, `legHold` and `legStatusEligible` of `src/adapters/payment/route-support.ts`,
-- and the doors of `src/api/app.ts` that ask them.
use freeagents.Base.{◌==◌, if◌then◌else◌, is_some, ℕ, Bool, true, false, not, Option, none, some}
use freeagents.Base.Text.{Text}
use freeagents.Job.Status.{JobStatus, proposed, staged}
use freeagents.Job.Model.{Rail, usdc, abt_eth, Job}
use freeagents.Job.Clocks.{is_lapse_status}
use freeagents.Server.Ports.{Leg, deposit, remainder, HeldAction, leg_held, paid_in_full, Ports}
use freeagents.Server.Route.{Route, ◌>>=◌, error, pure, send, ask, no_storage}

abbrev pub is_proposed : JobStatus → Bool
is_proposed proposed = true
is_proposed s = false

unfoldable pub leg_status_eligible : Leg → JobStatus → Bool
leg_status_eligible deposit s = is_proposed s
leg_status_eligible remainder s = is_lapse_status s

-- `HeldLeg`
pub record HeldLeg : Type 0 where
  pub rail : Rail
  pub awaiting_owner : Bool

-- whether a rail that is configured has the price of the leg confirmed on a half-paid record
abbrev pub is_half_paid : Option (ℕ → Leg → Text → Option Bool) → Leg → Text → Route Bool
is_half_paid none leg job_id = pure false
is_half_paid (some read) leg job_id = ask no_storage λ t. read t leg job_id

abbrev pub half_paid_leg : Option Rail → Option HeldLeg
half_paid_leg none = none
half_paid_leg (some rail) = some (record { rail = rail; awaiting_owner = false })

abbrev pub send_if_held : Option HeldLeg → HeldAction → Route (Unit {0})
send_if_held none action = pure tt
send_if_held (some held) action = send (error 409 (leg_held action held.awaiting_owner))

abbrev pub is_staged : JobStatus → Bool
is_staged staged = true
is_staged s = false

module _ (ports : Ports) where
  abbrev pub short_without_settlement : ℕ → Leg → Text → Route (Option Rail)
  short_without_settlement n leg job_id = if n == 0 then pure none else do
    settled ← ask no_storage λ t. ports.settlement t leg job_id
    pure (if is_some settled then none else some abt_eth)

  abbrev pub short_in : Option (ℕ → Leg → Text → Option ℕ) → Leg → Text → Route (Option Rail)
  short_in none leg job_id = pure none
  short_in (some find) leg job_id = do
    n ← ask no_storage λ t. find t leg job_id
    short_without_settlement n leg job_id

  unfoldable pub rail_held_by_short_payment : Leg → Text → Route (Option Rail)
  rail_held_by_short_payment leg job_id = short_in ports.shorts leg job_id

  unfoldable pub rail_holding_leg : Leg → Text → Route (Option Rail)
  rail_holding_leg leg job_id = do
    by_usdc ← is_half_paid ports.usdc_half_paid leg job_id
    if by_usdc then pure (some usdc) else do
      by_abt_eth ← is_half_paid ports.abt_eth_half_paid leg job_id
      pure (if by_abt_eth then some abt_eth else none)

  abbrev pub half_paid_unless_short : Option Rail → Leg → Text → Route (Option HeldLeg)
  half_paid_unless_short (some rail) leg job_id =
      pure (some (record { rail = rail; awaiting_owner = true }))
  half_paid_unless_short none leg job_id = do
    half_paid ← rail_holding_leg leg job_id
    pure (half_paid_leg half_paid)

  -- `legHold`, with the 503 of `readHeldRail` for a read that fails
  unfoldable pub leg_hold : Leg → Text → Route (Option HeldLeg)
  leg_hold leg job_id = do
    short ← rail_held_by_short_payment leg job_id
    half_paid_unless_short short leg job_id

  unfoldable pub refuse_when_leg_held : Leg → Text → HeldAction → Route (Unit {0})
  refuse_when_leg_held leg job_id action = do held ← leg_hold leg job_id; send_if_held held action

  -- `settlementGate.depositSettled` and `remainderSettled`, with the 503 of every caller
  unfoldable pub ask_gate : Leg → Text → Route Bool
  ask_gate leg job_id = ask no_storage λ t. ports.gate t leg job_id

  unfoldable pub refuse_staged_move_when_paid : Job → HeldAction → Route (Unit {0})
  refuse_staged_move_when_paid job action = if not (is_staged job.status) then pure tt else do
    paid_in_full_now ← ask_gate remainder job.id
    if paid_in_full_now
        then send (error 409 paid_in_full)
        else refuse_when_leg_held remainder job.id action
