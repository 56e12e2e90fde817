-- ===== src/Job/Consent/Marks.antt =====
-- The marks of the parties on the lines and on the price: what `proposeCriteria`, `acceptCriterion`
-- and `acceptPrice` of `src/domain/job.ts` leave of them.
use mathlib.Core.Path.{subst}
use freeagents.Job.Status.{JobStatus}
use freeagents.Base.{
  ◌==◌, ok, Option-cases, >>=-eq-ok, throw_if, ok-injective, count, ℕ, ◌+◌, ◌≤◌, ◌≡◌, ◌⊎◌, inl, inr,
  refl, sym, Bool, true, false, not, ◌&&◌, Option, none, some, List, [], ◌∷◌, arith, zero, suc,
  ◌>>=◌,
}
use freeagents.Base.Text.{Text, trim}
use freeagents.Job.Model.{
  Rail, Party, buyer, agent, Criterion, Job, JobFault, days, bad_price, job_error,
}
use freeagents.Job.Agreement.{default_delivery_window_days}
use freeagents.Job.Lines.{ProposedLine, find_match, revise, revise_lines}
use freeagents.Job.Price.{
  resolve_rail, PriceProposal, PriceFields, price_fields, revise_price, is_decimal_usd, same_text?,
  same_number?, rail_code, or_default,
}
use freeagents.Job.Exchange.{accept_line, accept_at, with_terms, accept_price_line}
use freeagents.Job.Revision.{accepted_by, one_if, find_match-count, revise_lines-cons}

-- the mark of a party on the price
abbrev pub price_accepted_by : Party → Job → Bool
price_accepted_by buyer job = job.price_accepted_by_buyer
price_accepted_by agent job = job.price_accepted_by_agent

-- how many lines a party has accepted
abbrev pub lines_accepted_by : Party → Job → ℕ
lines_accepted_by party job = count (accepted_by party) job.criteria

fresh_mark :
    (party seat : Party) (t : Text) (pool : List Criterion)
    → accepted_by party (revise t seat pool none).0 ≡ false
fresh_mark buyer seat t pool = refl
fresh_mark agent seat t pool = refl

kept_mark :
    (party seat : Party) (t : Text) (pool rest : List Criterion) (c : Criterion)
    → accepted_by party (revise t seat pool (some (c, rest))).0 ≡ accepted_by party c
kept_mark buyer seat t pool rest c = refl
kept_mark agent seat t pool rest c = refl

revise-marks :
    (party seat : Party) (t : Text) (pool : List Criterion)
    → let (line, rest) = revise t seat pool (find_match t pool) in
      count (accepted_by party) rest + one_if (accepted_by party line)
      ≤ count (accepted_by party) pool
revise-marks party seat t pool = elim (Option-cases (find_match t pool)) [
  | inl e ↦ rw e (rw (fresh_mark party seat t pool) (omega arith))
  | inr ((c, r), e) ↦
      let counted = (find_match-count (accepted_by party) t pool e).1 in
      rw e (rw (kept_mark party seat t pool r c) (omega arith))
]

pub revise_lines-marks :
    (party : Party) (pool : List Criterion) (lines : List ProposedLine) {out : List Criterion}
    → revise_lines pool lines ≡ ok out
    → count (accepted_by party) out ≤ count (accepted_by party) pool
unfolding revise_lines
revise_lines-marks party pool [] h = rw (← ok-injective JobFault h) (omega arith)
revise_lines-marks party pool (line ∷ lines) h =
    let (seat, tail, (et, eo)) = revise_lines-cons pool line lines h in
    let bound = revise-marks party seat (trim line.text) pool in
    let after =
      revise_lines-marks party
        (revise (trim line.text) seat pool (find_match (trim line.text) pool)).1 lines et in
    rw eo (ground arith)

other_line_mark :
    (party other : Party) (c : Criterion)
    → (party ≡ other) ⊎ (accepted_by other (accept_line party c) ≡ accepted_by other c)
other_line_mark buyer buyer c = inl refl
other_line_mark buyer agent c = inr refl
other_line_mark agent buyer c = inr refl
other_line_mark agent agent c = inl refl

pub accept_at-marks :
    (party other : Party) (i : ℕ) (cs : List Criterion)
    → (party ≡ other)
      ⊎ (count (accepted_by other) (accept_at i party cs) ≡ count (accepted_by other) cs)
unfolding accept_at
accept_at-marks party other i [] = inr refl
accept_at-marks party other zero (c ∷ cs) = elim (other_line_mark party other c) [
  | inl e ↦ inl e
  | inr e ↦ inr (rw e refl)
]
accept_at-marks party other (suc i) (c ∷ cs) = elim (accept_at-marks party other i cs) [
  | inl e ↦ inl e
  | inr e ↦ inr (rw e refl)
]

pub fields_mark : Party → PriceFields → Bool
fields_mark buyer f = f.price_accepted_by_buyer
fields_mark agent f = f.price_accepted_by_agent

same_test : (unchanged mark : Bool) → unchanged && mark ≡ true → mark ≡ true
same_test unchanged mark h = ground arith

-- fields that keep both marks or clear both
kept_fields : PriceFields → Option Text → Option Rail → Option ℕ → Bool → PriceFields
kept_fields old usd rail days unchanged = record {
  price_usd = usd;
  rail = rail;
  delivery_window_days = days;
  price_accepted_by_buyer = unchanged && old.price_accepted_by_buyer;
  price_accepted_by_agent = unchanged && old.price_accepted_by_agent;
}

kept_fields-mark :
    (party : Party) (old : PriceFields) (usd : Option Text) (rail : Option Rail) (days : Option ℕ)
    (unchanged : Bool)
    → fields_mark party (kept_fields old usd rail days unchanged) ≡ true
    → fields_mark party old ≡ true
unfolding kept_fields fields_mark
kept_fields-mark buyer old usd rail days unchanged h = same_test unchanged _ h
kept_fields-mark agent old usd rail days unchanged h = same_test unchanged _ h

pub revise_price-mark :
    (party : Party) (old : PriceFields) (price : Option PriceProposal) {f : PriceFields}
    → revise_price old price ≡ ok f
    → fields_mark party f ≡ true
    → fields_mark party old ≡ true
unfolding revise_price kept_fields is_decimal_usd
revise_price-mark party old none h e = rw (ok-injective JobFault h) e
revise_price-mark party old (some p) h e =
    let window = or_default p.delivery_window_days default_delivery_window_days in
    let unchanged : Option Rail → Bool = λ rail.
      same_text? old.price_usd p.price_usd
      && rail_code old.rail == rail_code rail
      && same_number? old.delivery_window_days window in
    let kept : Option Rail → PriceFields =
      λ rail. kept_fields old (some p.price_usd) rail (some window) (unchanged rail) in
    let (u, eu, h₁) =
      >>=-eq-ok (throw_if (not (is_decimal_usd p.price_usd)) (job_error bad_price))
        (λ _. resolve_rail old.rail p.rail >>= λ rail. ok (kept rail)) h in
    let (rail, er, h₂) = >>=-eq-ok (resolve_rail old.rail p.rail) (λ rail. ok (kept rail)) h₁ in
    kept_fields-mark party old (some p.price_usd) rail (some window) (unchanged rail)
      (subst (λ (x : PriceFields). fields_mark party x ≡ true) (sym (ok-injective JobFault h₂)) e)

pub fields_mark-price_fields :
    (party : Party) (job : Job) → fields_mark party (price_fields job) ≡ price_accepted_by party job
unfolding fields_mark
fields_mark-price_fields buyer job = refl
fields_mark-price_fields agent job = refl

pub with_terms-mark :
    (party : Party) (job : Job) (s : JobStatus) (lines : List Criterion) (f : PriceFields)
    → price_accepted_by party (with_terms job s lines f) ≡ fields_mark party f
unfolding fields_mark
with_terms-mark buyer job s lines f = refl
with_terms-mark agent job s lines f = refl

pub other_price_mark :
    (party other : Party) (job : Job)
    → (party ≡ other)
      ⊎ (price_accepted_by other (accept_price_line party job) ≡ price_accepted_by other job)
other_price_mark buyer buyer job = inl refl
other_price_mark buyer agent job = inr refl
other_price_mark agent buyer job = inr refl
other_price_mark agent agent job = inl refl

accept_price_line-criteria :
    (party : Party) (job : Job) → (accept_price_line party job).criteria ≡ job.criteria
accept_price_line-criteria buyer job = refl
accept_price_line-criteria agent job = refl
