-- ===== src/Job/Status.antt =====
-- `JobStatus`, `TERMINAL_STATUSES` and the table of `validateJobTransition`.
use freeagents.Base.Text.{Text, codes}
use freeagents.Base.{ℕ, Bool, false, ◌||◌, not, List, [], ◌∷◌, Result, ok, err, ◌==◌, if◌then◌else◌}

pub data JobStatus : Type 0 where
  draft proposed confirmed staged redo_requested submitted completed declined : JobStatus
  closed_unmerged stale withdrawn staged_declined closed_unpaid expired_unstaged : JobStatus
  deemed_completed cited_closed paid_undelivered : JobStatus

-- a number for each status, so that two can be compared
abbrev pub status_code : JobStatus → ℕ
status_code draft = 0
status_code proposed = 1
status_code confirmed = 2
status_code staged = 3
status_code redo_requested = 4
status_code submitted = 5
status_code completed = 6
status_code declined = 7
status_code closed_unmerged = 8
status_code stale = 9
status_code withdrawn = 10
status_code staged_declined = 11
status_code closed_unpaid = 12
status_code expired_unstaged = 13
status_code deemed_completed = 14
status_code cited_closed = 15
status_code paid_undelivered = 16

-- the literal of a status
abbrev pub status_text : JobStatus → Text
status_text draft = codes "draft"
status_text proposed = codes "proposed"
status_text confirmed = codes "confirmed"
status_text staged = codes "staged"
status_text redo_requested = codes "redo_requested"
status_text submitted = codes "submitted"
status_text completed = codes "completed"
status_text declined = codes "declined"
status_text closed_unmerged = codes "closed_unmerged"
status_text stale = codes "stale"
status_text withdrawn = codes "withdrawn"
status_text staged_declined = codes "staged_declined"
status_text closed_unpaid = codes "closed_unpaid"
status_text expired_unstaged = codes "expired_unstaged"
status_text deemed_completed = codes "deemed_completed"
status_text cited_closed = codes "cited_closed"
status_text paid_undelivered = codes "paid_undelivered"

-- `a === b`
abbrev pub same_status : JobStatus → JobStatus → Bool
same_status a b = status_code a == status_code b

-- `statuses.includes(status)`
abbrev pub includes : List JobStatus → JobStatus → Bool
includes [] s = false
includes (t ∷ ts) s = same_status t s || includes ts s

abbrev pub terminal_statuses : List JobStatus
terminal_statuses =
    completed ∷ declined ∷ closed_unmerged ∷ withdrawn ∷ staged_declined ∷ closed_unpaid
    ∷ expired_unstaged ∷ deemed_completed ∷ cited_closed ∷ paid_undelivered ∷ []

unfoldable pub is_terminal : JobStatus → Bool
is_terminal s = includes terminal_statuses s

-- `validTransitions`
unfoldable pub valid_transitions : JobStatus → List JobStatus
valid_transitions draft = proposed ∷ declined ∷ withdrawn ∷ []
valid_transitions proposed = confirmed ∷ declined ∷ withdrawn ∷ []
valid_transitions confirmed = staged ∷ expired_unstaged ∷ declined ∷ withdrawn ∷ []
valid_transitions staged =
    submitted ∷ staged_declined ∷ closed_unpaid ∷ redo_requested ∷ paid_undelivered ∷ []
valid_transitions redo_requested = staged ∷ closed_unpaid ∷ paid_undelivered ∷ []
valid_transitions submitted =
    completed ∷ deemed_completed ∷ stale ∷ declined ∷ withdrawn ∷ cited_closed ∷ []
valid_transitions stale = completed ∷ closed_unmerged ∷ declined ∷ withdrawn ∷ []
valid_transitions closed_unmerged = []
valid_transitions completed = []
valid_transitions declined = []
valid_transitions withdrawn = []
valid_transitions staged_declined = []
valid_transitions closed_unpaid = []
valid_transitions expired_unstaged = []
valid_transitions deemed_completed = []
valid_transitions cited_closed = []
valid_transitions paid_undelivered = []

-- What a `JobTransitionError` is about: the status that the job has, and the action refused.
pub data TransitionError : Type 0 where
  final_status : JobStatus → TransitionError
  no_such_edge : JobStatus → JobStatus → TransitionError

unfoldable pub validate_transition : JobStatus → JobStatus → Result TransitionError JobStatus
unfolding is_terminal valid_transitions
validate_transition from to =
    if is_terminal from
    then err (final_status from)
    else if not (includes (valid_transitions from) to)
    then err (no_such_edge from to)
    else ok to
