-- ===== src/Streams/Places.antt =====
-- When `acquire` of `src/api/stream-caps.ts` gives a place, and `release` called again.
use freeagents.Base.{
  ℕ, zero, suc, ◌<◌, true, List, [], ◌∷◌, some, leb, length, get_elem?, count, ◌≡◌, ◌↔◌, refl, sym,
  arith, Bool-cases, Option-cases, inl, inr,
}
use freeagents.Base.Text.{Text}
use freeagents.Streams.Caps.{StreamPlace, StreamCaps, place, acquire, mark_released, release}
use freeagents.Streams.Counted.{IsCounted, open_of, open_on, total_of, held_of}

acquire_answer :
    (c t : Text) (caps : StreamCaps)
    → ((acquire c t caps).1 ≡ place (length caps.places))
      ↔ ((held_of c t caps.callers < 3) × (total_of c caps.callers < 10))
unfolding acquire
acquire_answer c t caps = elim (Bool-cases (leb 3 (held_of c t caps.callers))) [
  | inl k ↦ rw k ((λ h. cc), (λ h. absurd (ground arith)))
  | inr k ↦ elim (Bool-cases (leb 10 (total_of c caps.callers))) [
    | inl m ↦ rw (k, m) ((λ h. cc), (λ h. absurd (ground arith)))
    | inr m ↦ rw (k, m) ((λ h. (ground arith, ground arith)), (λ h. refl))
  ]
]

-- Of caps whose table counts the open streams, `acquire` gives a place, the next one, exactly if the
-- caller has fewer than three streams open on the target and fewer than ten in all.
pub acquire_iff :
    (c t : Text) (caps : StreamCaps)
    → IsCounted caps
    → ((acquire c t caps).1 ≡ place (length caps.places))
      ↔ ((count (open_on c t) caps.places < 3) × (count (open_of c) caps.places < 10))
acquire_iff c t caps h = rw (sym (h.helds c t), sym (h.totals c)) (acquire_answer c t caps)

get_elem?-mark_released :
    (n : ℕ) (ps : List StreamPlace) (p : StreamPlace)
    → get_elem? ps n ≡ some p
    → get_elem? (mark_released n ps) n ≡ some (record p { released = true })
get_elem?-mark_released n [] p e = cc
get_elem?-mark_released zero (q ∷ ps) p e = let same : q ≡ p = cc in rw same refl
get_elem?-mark_released (suc n) (q ∷ ps) p e = get_elem?-mark_released n ps p e

-- Releasing a place again changes nothing, whatever the caps and the place are.
pub release_idem : (n : ℕ) (caps : StreamCaps) → release n (release n caps) ≡ release n caps
unfolding release
release_idem n caps = elim (Option-cases (get_elem? caps.places n)) [
  | inl e ↦ rw (e, e) refl
  | inr (p, e) ↦ elim (Bool-cases p.released) [
    | inl r ↦ rw (e, r, e, r) refl
    | inr r ↦ rw (e, r, get_elem?-mark_released n caps.places p e) refl
  ]
]
