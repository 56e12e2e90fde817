-- ===== src/Job/Lines.antt =====
-- The criteria lines of a proposal, of `proposeCriteria` in `src/domain/job.ts`.
use freeagents.Base.{
  ◌>>=◌, ◌>>◌, if◌then◌else◌, Result, err, ok, throw_if, false, Option, none, some, List, [], ◌∷◌,
}
use freeagents.Base.Text.{Text, codes, text_eq, trim}
use freeagents.Job.Model.{
  Party, buyer, agent, Criterion, empty_text, bad_proposer, JobFault, job_error,
}
use freeagents.Job.Agreement.{is_blank}

pub record ProposedLine : Type 0 where
  pub text : Text
  pub proposed_by : Text

-- `"agent"` or `"buyer"`
abbrev pub parse_party : Text → Option Party
parse_party s =
    if text_eq s (codes "agent")
    then some agent
    else if text_eq s (codes "buyer")
    then some buyer
    else none

-- The first stored line with this text, and the pool without it: a line that has been matched
-- is consumed.
abbrev pub keep_skipped :
    Criterion → Option (Criterion × List Criterion) → Option (Criterion × List Criterion)
keep_skipped c none = none
keep_skipped c (some (m, rest)) = some (m, c ∷ rest)

unfoldable pub find_match : Text → List Criterion → Option (Criterion × List Criterion)
find_match text [] = none
find_match text (c ∷ pool) =
    if text_eq c.text text then some (c, pool) else keep_skipped c (find_match text pool)

-- A matched line keeps its author and its marks; any other is new, and nobody has accepted it.
abbrev pub revise :
    Text → Party → List Criterion → Option (Criterion × List Criterion) → Criterion × List Criterion
revise text party pool (some (c, rest)) = (
  record {
    text = text;
    proposed_by = c.proposed_by;
    accepted_by_buyer = c.accepted_by_buyer;
    accepted_by_agent = c.accepted_by_agent;
  },
  rest,
)
revise text party pool none = (
  record { text = text; proposed_by = party; accepted_by_buyer = false; accepted_by_agent = false },
  pool,
)

abbrev pub or_throw {ℓ} : {A : Type ℓ} → Option A → JobFault → Result JobFault A
or_throw none e = err e
or_throw (some a) e = ok a

-- The `input.map(...)` of `proposeCriteria`, over the lines that are not consumed yet.
unfoldable pub revise_lines : List Criterion → List ProposedLine → Result JobFault (List Criterion)
unfolding find_match
revise_lines pool [] = ok []
revise_lines pool (line ∷ lines) = do
  throw_if (is_blank line.text) (job_error empty_text)
  party ← or_throw (parse_party line.proposed_by) (job_error bad_proposer)
  let text = trim line.text
  let revised = revise text party pool (find_match text pool)
  rest ← revise_lines revised.1 lines
  ok (revised.0 ∷ rest)
