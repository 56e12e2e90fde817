-- ===== src/Conduct/Thresholds.antt =====
-- When the listing thresholds of `src/domain/buyer-conduct.ts` let a buyer through.
use freeagents.Base.{ℕ, ◌≤◌, Option, none, some, ◌≡◌, ◌↔◌, refl, arith}
use freeagents.Conduct.Buyer.{
  BuyerConduct, BuyerConductThresholds, merges_failure, walked_failure, or_else,
  buyer_conduct_threshold_failure,
}

-- An unset threshold is met by everyone, a set one only by a buyer with a record.
abbrev pub MeetsMerges : Option BuyerConduct → Option ℕ → Type 0
MeetsMerges counts none = Unit
MeetsMerges none (some required) = ⊥
MeetsMerges (some c) (some required) = required ≤ c.merged

abbrev pub MeetsWalked : Option BuyerConduct → Option ℕ → Type 0
MeetsWalked counts none = Unit
MeetsWalked none (some required) = ⊥
MeetsWalked (some c) (some required) = c.walked_after_confirm ≤ required

merges_failure_iff :
    (counts : Option BuyerConduct) (required : Option ℕ)
    → (merges_failure counts required ≡ none) ↔ MeetsMerges counts required
merges_failure_iff counts none = ((λ _. tt), (λ _. refl))
merges_failure_iff none (some n) = ((λ h. cc), (λ h. absurd h))
merges_failure_iff (some c) (some n) = ((λ h. ground arith), (λ h. ground arith))

walked_failure_iff :
    (counts : Option BuyerConduct) (required : Option ℕ)
    → (walked_failure counts required ≡ none) ↔ MeetsWalked counts required
walked_failure_iff counts none = ((λ _. tt), (λ _. refl))
walked_failure_iff none (some n) = ((λ h. cc), (λ h. absurd h))
walked_failure_iff (some c) (some n) = ((λ h. ground arith), (λ h. ground arith))

or_else_iff {ℓ} : {A : Type ℓ} (a b : Option A) → (or_else a b ≡ none) ↔ ((a ≡ none) × (b ≡ none))
or_else_iff none b = ((λ h. (refl, h)), (λ h. h.1))
or_else_iff (some x) b = ((λ h. cc), (λ h. absurd cc))

-- A buyer fails no threshold exactly if each threshold that is set is met: at least the required
-- merges, and at most the allowed walks after confirm; a buyer without a record meets none that is
-- set.
pub buyer_conduct_threshold_failure_iff :
    (counts : Option BuyerConduct) (thresholds : BuyerConductThresholds)
    → (buyer_conduct_threshold_failure counts thresholds ≡ none) ↔ (
        MeetsMerges counts thresholds.min_buyer_merges
        × MeetsWalked counts thresholds.max_walked_after_confirm)
unfolding buyer_conduct_threshold_failure
buyer_conduct_threshold_failure_iff counts thresholds =
    let (f, g) =
      or_else_iff (merges_failure counts thresholds.min_buyer_merges)
        (walked_failure counts thresholds.max_walked_after_confirm) in
    let (a, b) = merges_failure_iff counts thresholds.min_buyer_merges in
    let (c, d) = walked_failure_iff counts thresholds.max_walked_after_confirm in
    ((λ h. (a (f h).0, c (f h).1)), (λ h. g (b h.0, d h.1)))
