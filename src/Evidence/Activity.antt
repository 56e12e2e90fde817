-- ===== src/Evidence/Activity.antt =====
-- The label of `src/domain/liveness.ts` against the ages of the observed times.
use freeagents.Base.{ℕ, ◌+◌, ◌*◌, ◌≤◌, Option, none, some, ◌≡◌, ◌↔◌, ◌⊎◌, refl, arith, inl, inr}
use freeagents.Base.Text.{Text}
use freeagents.Evidence.Moment.{Moment, parse_instant}
use freeagents.Evidence.Liveness.{
  active, dormant, ObservedActivity, later, last_observed_at, status_of, liveness_status,
}

-- a time that is there and at most a number of days old
abbrev pub IsRecent : ℕ → ℕ → Option ℕ → Type 0
IsRecent days now none = ⊥
IsRecent days now (some t) = now ≤ t + days * 86400000

later_iff :
    (days now : ℕ) (a b : Option ℕ)
    → IsRecent days now (later a b) ↔ (IsRecent days now a ⊎ IsRecent days now b)
later_iff days now none b = ((λ h. inr h), (λ h. elim h [ inl x ↦ absurd x | inr y ↦ y ]))
later_iff days now (some a) none = ((λ h. inl h), (λ h. elim h [ inl x ↦ x | inr y ↦ absurd y ]))
later_iff days now (some a) (some b) = ((λ h. ground arith), (λ h. ground arith))

active_iff : (o : Option ℕ) (now : ℕ) → (status_of o (some now) ≡ active) ↔ IsRecent 30 now o
active_iff none now = ((λ h. cc), (λ h. absurd h))
active_iff (some t) now = ((λ h. ground arith), (λ h. ground arith))

dormant_iff : (o : Option ℕ) (now : ℕ) → (status_of o (some now) ≡ dormant) ↔ (¬ IsRecent 90 now o)
dormant_iff none now = ((λ h k. k), (λ h. refl))
dormant_iff (some t) now = ((λ h k. ground arith), (λ h. ground arith))

three_iff :
    (days now : ℕ) (a b c : Option ℕ)
    → IsRecent days now (later a (later b c))
      ↔ (IsRecent days now a ⊎ (IsRecent days now b ⊎ IsRecent days now c))
three_iff days now a b c =
    let (f, g) = later_iff days now a (later b c) in
    let (h, k) = later_iff days now b c in
    (
      λ r. elim (f r) [ inl x ↦ inl x | inr y ↦ inr (h y) ],
      λ s. g (elim s [ inl x ↦ inl x | inr y ↦ inr (k y) ]),
    )

-- one of the three observed times is at most a number of days old
abbrev pub IsObserved : (Text → Option ℕ) → ObservedActivity → ℕ → ℕ → Type 0
IsObserved date_parse activity days now =
    IsRecent days now (parse_instant date_parse activity.last_completed_hire_at)
    ⊎ (IsRecent days now (parse_instant date_parse activity.last_hire_activity_at)
        ⊎ IsRecent days now (parse_instant date_parse activity.last_signed_request_at))

-- At a time that is there, the label is active exactly if a completed hire, a hire activity or a
-- signed request is at most thirty days old, and dormant exactly if none is at most ninety days
-- old; a time that is missing or no date counts for neither.
pub liveness_status_iff :
    (date_parse : Text → Option ℕ) (activity : ObservedActivity) (now : Moment) (n : ℕ)
    → parse_instant date_parse now ≡ some n
    → ((liveness_status date_parse activity now ≡ active) ↔ IsObserved date_parse activity 30 n)
      × ((liveness_status date_parse activity now ≡ dormant)
          ↔ (¬ IsObserved date_parse activity 90 n))
unfolding liveness_status last_observed_at
liveness_status_iff date_parse activity now n e =
    let a = parse_instant date_parse activity.last_completed_hire_at in
    let b = parse_instant date_parse activity.last_hire_activity_at in
    let c = parse_instant date_parse activity.last_signed_request_at in
    let (f, g) = active_iff (later a (later b c)) n in
    let (f', g') = dormant_iff (later a (later b c)) n in
    let (h, k) = three_iff 30 n a b c in
    let (h', k') = three_iff 90 n a b c in
    rw e (((λ s. h (f s)), (λ s. g (k s))), ((λ s o. f' s (k' o)), (λ s. g' (λ o. s (h' o)))))
