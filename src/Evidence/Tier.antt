-- ===== src/Evidence/Tier.antt =====
-- The evidence tiers of `src/domain/evidence.ts`.
use freeagents.Base.{Bool, false, not, ◌&&◌, if◌then◌else◌, ◌≡◌, arith}

pub data EvidenceTier : Type 0 where
  verified_hire verified_prior_work portfolio : EvidenceTier

pub record EvidenceFacts : Type 0 where
  pub platform_brokered : Bool
  pub pull_request_merged : Bool
  pub signed_commit : Bool
  pub repository_public : Bool
  pub owner_submitted : Bool

unfoldable pub evidence_tier : EvidenceFacts → EvidenceTier
evidence_tier facts =
    if facts.platform_brokered && facts.pull_request_merged && facts.repository_public
    then verified_hire
    else if facts.signed_commit && facts.repository_public && not facts.platform_brokered
    then verified_prior_work
    else portfolio

-- Nothing that is not public is more than portfolio, whatever else is said of it.
evidence_tier-private :
    (facts : EvidenceFacts) → facts.repository_public ≡ false → evidence_tier facts ≡ portfolio
unfolding evidence_tier
evidence_tier-private facts h = ground arith
