-- ===== src/Job/Acceptance.antt =====
-- The marks of the exchange: on one line, on the price, and through a whole proposal.
use native.Mathlib.Nat.{le_refl}
use freeagents.Base.{
  ◌==◌, if◌then◌else◌, ok, ◌>>=◌, length, get_elem?, ℕ, zero, suc, ◌<◌, ◌≡◌, refl, ap, List, [],
  ◌∷◌, arith, drop, ◌≤◌, ◌∙◌, is_some, ◌≢◌, true, ◌++◌,
}
use freeagents.Job.Status.{proposed, confirmed}
use freeagents.Job.Model.{Party, buyer, agent, Criterion, Job, Instant}
use freeagents.Job.Agreement.{option_map}
use freeagents.Job.Exchange.{
  accept_line, accept_at, accept_criterion, accept_price, accept_price_line,
}
use freeagents.Job.Confirm.{All, IsAcceptedLine, IsReady, confirm_spec_iff}
use freeagents.Job.Event.{
  Event, run, perform, accept_event, accept_price_event, confirm_event, keep_on_error,
}
use freeagents.Base.Text.{Text}
use freeagents.Base.Number.{whole}

pub length-accept_at :
    (i : ℕ) (party : Party) (cs : List Criterion) → length (accept_at i party cs) ≡ length cs
unfolding accept_at
length-accept_at i party [] = refl
length-accept_at zero party (c ∷ cs) = refl
length-accept_at (suc i) party (c ∷ cs) = ap suc (length-accept_at i party cs)

-- A line's text and author stay, and it is the line at the index whose one mark is set.
pub get_elem?-accept_at :
    (i j : ℕ) (party : Party) (cs : List Criterion)
    → get_elem? (accept_at i party cs) j
      ≡ (if i == j then option_map (accept_line party) (get_elem? cs j) else get_elem? cs j)
unfolding accept_at
get_elem?-accept_at i j party [] = ground arith
get_elem?-accept_at zero zero party (c ∷ cs) = refl
get_elem?-accept_at zero (suc j) party (c ∷ cs) = ground arith
get_elem?-accept_at (suc i) zero party (c ∷ cs) = ground arith
get_elem?-accept_at (suc i) (suc j) party (c ∷ cs) =
    ground (arith, get_elem?-accept_at i j party cs)

accept_line_comm :
    (p q : Party) (c : Criterion)
    → accept_line p (accept_line q c) ≡ accept_line q (accept_line p c)
accept_line_comm buyer buyer c = refl
accept_line_comm buyer agent c = refl
accept_line_comm agent buyer c = refl
accept_line_comm agent agent c = refl

accept_at_comm :
    (i j : ℕ) (p q : Party) (cs : List Criterion)
    → accept_at i p (accept_at j q cs) ≡ accept_at j q (accept_at i p cs)
unfolding accept_at
accept_at_comm i j p q [] = refl
accept_at_comm zero zero p q (c ∷ cs) = ap (λ d. d ∷ cs) (accept_line_comm p q c)
accept_at_comm zero (suc j) p q (c ∷ cs) = refl
accept_at_comm (suc i) zero p q (c ∷ cs) = refl
accept_at_comm (suc i) (suc j) p q (c ∷ cs) = rw (accept_at_comm i j p q cs)

accept_in_range :
    (job : Job) (i : ℕ) (party : Party)
    → job.status ≡ proposed
    → i < length job.criteria
    → accept_criterion job (whole i) party
      ≡ ok (record job { criteria = accept_at i party job.criteria })
unfolding accept_criterion
accept_in_range job i party e lt = rw e (ground arith)

-- Two acceptances on a proposed job, by either party and on any lines, give the same job in
-- either order, so neither party's mark depends on the other's.
pub accept_criterion_comm :
    (job : Job) (i j : ℕ) (p q : Party)
    → job.status ≡ proposed
    → i < length job.criteria
    → j < length job.criteria
    → (accept_criterion job (whole i) p >>= λ a. accept_criterion a (whole j) q)
      ≡ (accept_criterion job (whole j) q >>= λ a. accept_criterion a (whole i) p)
accept_criterion_comm job i j p q e hi hj =
    rw (accept_in_range job i p e hi, accept_in_range job j q e hj)
      (rw (
        accept_in_range (record job { criteria = accept_at i p job.criteria }) j q e
            (rw (length-accept_at i p job.criteria) hj),
        accept_in_range (record job { criteria = accept_at j q job.criteria }) i p e
            (rw (length-accept_at j q job.criteria) hi),
        accept_at_comm j i q p job.criteria,
      ))

-- Both parties accept the lines from the last to the first.
abbrev pub accept_all_events : ℕ → List Event
accept_all_events zero = []
accept_all_events (suc n) =
    accept_event (whole n) buyer ∷ accept_event (whole n) agent ∷ accept_all_events n

abbrev twice_at : ℕ → List Criterion → List Criterion
twice_at n cs = accept_at n agent (accept_at n buyer cs)

-- The lines from an index on are accepted, and then that index's.
twice_at-All :
    (n : ℕ) (cs : List Criterion)
    → n < length cs
    → All IsAcceptedLine (drop (suc n) cs)
    → All IsAcceptedLine (drop n (twice_at n cs))
unfolding accept_at
twice_at-All n [] lt h = absurd (omega arith)
twice_at-All zero (c ∷ cs) lt h = ((refl, refl), h)
twice_at-All (suc n) (c ∷ cs) lt h = twice_at-All n cs (omega arith) h

abbrev with_criteria : Job → List Criterion → Job
with_criteria job cs = record job { criteria = cs }

accept_twice :
    (sha : Text → Text) (job : Job) (n : ℕ) (es : List Event)
    → job.status ≡ proposed
    → n < length job.criteria
    → run sha (accept_event (whole n) buyer ∷ accept_event (whole n) agent ∷ es) job
      ≡ run sha es (with_criteria job (twice_at n job.criteria))
unfolding run perform
accept_twice sha job n es e lt =
    let next : Job = with_criteria job (accept_at n buyer job.criteria) in
    rw (
      accept_in_range job n buyer e lt,
      accept_in_range next n agent e (rw (length-accept_at n buyer job.criteria) lt),
    )

accept_lines_run :
    (sha : Text → Text) (n : ℕ) (job : Job)
    → job.status ≡ proposed
    → n ≤ length job.criteria
    → All IsAcceptedLine (drop n job.criteria)
    → (cs : List Criterion) × (run sha (accept_all_events n) job ≡ with_criteria job cs)
      × All IsAcceptedLine cs
      × (length cs ≡ length job.criteria)
unfolding run
accept_lines_run sha zero job e le h = (job.criteria, refl, h, refl)
accept_lines_run sha (suc n) job e le h =
    let cs = twice_at n job.criteria in
    let len : length cs ≡ length job.criteria =
      length-accept_at n agent _ ∙ length-accept_at n buyer job.criteria in
    let (ds, r, all, same_length) =
      accept_lines_run sha n (with_criteria job cs) e (rw len (omega arith))
        (twice_at-All n job.criteria le h) in
    (ds, accept_twice sha job n (accept_all_events n) e le ∙ r, all, same_length ∙ len)

drop-All : (cs : List Criterion) → All IsAcceptedLine (drop (length cs) cs)
drop-All [] = tt
drop-All (c ∷ cs) = drop-All cs

run-append :
    (sha : Text → Text) (es fs : List Event) (job : Job)
    → run sha (es ++ fs) job ≡ run sha fs (run sha es job)
unfolding run
run-append sha [] fs job = refl
run-append sha (e ∷ es) fs job = run-append sha es fs (keep_on_error job (perform sha e job))

abbrev pub close_events : Instant → List Event
close_events now = accept_price_event buyer ∷ accept_price_event agent ∷ confirm_event now ∷ []

accept_price-eq :
    (job : Job) (party : Party)
    → job.status ≡ proposed
    → is_some job.price_usd ≡ true
    → accept_price job party ≡ ok (accept_price_line party job)
unfolding accept_price
accept_price-eq job party e p = rw (e, p)

abbrev price_accepted : Job → List Criterion → Job
price_accepted job cs = record job {
  criteria = cs;
  price_accepted_by_buyer = true;
  price_accepted_by_agent = true;
}

close_run :
    (sha : Text → Text) (job : Job) (cs : List Criterion) (now : Instant)
    → IsReady (price_accepted job cs)
    → (run sha (close_events now) (with_criteria job cs)).status ≡ confirmed
unfolding run perform
close_run sha job cs now r =
    let first : Job = with_criteria job cs in
    rw (
      accept_price-eq first buyer r.exchanged r.priced,
      accept_price-eq (accept_price_line buyer first) agent r.exchanged r.priced,
      (confirm_spec_iff sha (price_accepted job cs) now).0 r,
    )

length-ne : (xs ys : List Criterion) → length xs ≡ length ys → ys ≢ [] → xs ≢ []
length-ne xs [] e n = absurd (n refl)
length-ne [] (y ∷ ys) e n = absurd (omega arith)
length-ne (x ∷ xs) (y ∷ ys) e n = λ q. cc

-- The exchange can always be finished: on a proposed job with a line, a price and a rail, once
-- both parties accept each line and the price, the buyer's confirm goes through.
pub exchange_completes :
    (sha : Text → Text) (job : Job) (now : Instant)
    → job.status ≡ proposed
    → job.criteria ≢ []
    → is_some job.price_usd ≡ true
    → is_some job.rail ≡ true
    → (run sha (accept_all_events (length job.criteria) ++ close_events now) job).status ≡ confirmed
exchange_completes sha job now e some_line priced railed =
    let (cs, r, all, same_length) =
      accept_lines_run sha (length job.criteria) job e (le_refl _) (drop-All job.criteria) in
    rw (run-append sha (accept_all_events (length job.criteria)) (close_events now) job, r)
      (close_run sha job cs now (record {
        exchanged = e;
        some_line = length-ne cs job.criteria same_length some_line;
        lines = all;
        priced = priced;
        railed = railed;
        by_buyer = refl;
        by_agent = refl;
      }))
