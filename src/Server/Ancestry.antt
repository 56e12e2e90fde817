-- ===== src/Server/Ancestry.antt =====
-- `descendsFrom` in `src/api/app.ts`: the walk through the parents of a commit, at most 501 rounds.
pub mod Walk
use freeagents.Base.{if◌then◌else◌, ℕ, zero, suc, ◌+◌, Bool, true, false, ◌||◌, List, [], ◌∷◌, ◌++◌}
use freeagents.Base.Text.{Text, text_eq}
use freeagents.Job.Model.{Repo}
use freeagents.Server.Ports.{github_unavailable, Ports}
use freeagents.Server.Route.{Route, ◌>>=◌, error, pure, ask, ◌>>◌}

abbrev pub max_ancestry_walk_depth : ℕ
max_ancestry_walk_depth = 500

-- `visited.has(sha)`
abbrev pub contains : Text → List Text → Bool
contains sha [] = false
contains sha (x ∷ xs) = text_eq x sha || contains sha xs

-- One round: whether the target was met, else the commits visited and the parents found.
pub record Round : Type 0 where
  pub found : Bool
  pub visited : List Text
  pub next : List Text

abbrev pub is_empty : List Text → Bool
is_empty [] = true
is_empty (x ∷ xs) = false

module _ (ports : Ports) (repo : Repo) (target : Text) where
  unfoldable pub scan : List Text → List Text → List Text → Route Round
  scan [] visited next = pure (record { found = false; visited = visited; next = next })
  scan (candidate ∷ rest) visited next =
      if text_eq candidate target
      then pure (record { found = true; visited = visited; next = next })
      else if contains candidate visited
      then scan rest visited next
      else do
        parents ← ask (error 503 github_unavailable) λ t. ports.commit_parents t repo candidate
        scan rest (candidate ∷ visited) (next ++ parents)

  -- the rounds from one depth on, as many as the fuel says
  unfoldable pub walk : ℕ → List Text → List Text → Route Bool
  walk zero frontier visited = pure false
  walk (suc fuel) frontier visited = do
    round ← scan frontier visited []
    if round.found || is_empty round.next
        then pure round.found
        else walk fuel round.next round.visited

  -- `descendsFrom`: a round for each depth from 0 to 500
  unfoldable pub descends_from : Text → Route Bool
  descends_from sha = walk (max_ancestry_walk_depth + 1) (sha ∷ []) []
