-- ===== src/Server/Links.antt =====
-- The URL of a pull request, as `observePullRequest` and the pull-request route of
-- `src/api/app.ts` match it, and the comparison of `src/domain/chain-identifiers.ts`.
use freeagents.Base.{◌==◌, if◌then◌else◌, ℕ, Bool, true, false, ◌&&◌, Option, none, some, [], ◌∷◌}
use freeagents.Base.Text.{Text, codes, text_eq, is_digit}
use freeagents.Evidence.Keys.{after_prefix}
use freeagents.Payment.Numeral.{big_int}
use freeagents.Server.Ports.{PullRequestRef}

-- `[^/]+\/`: the text before the first slash, if it is not empty, and the text behind it
abbrev pub cons_part : ℕ → Option (Text × Text) → Option (Text × Text)
cons_part c none = none
cons_part c (some (part, rest)) = some (c ∷ part, rest)

unfoldable pub to_slash : Text → Option (Text × Text)
to_slash [] = none
to_slash (c ∷ s) = let rest = cons_part c (to_slash s) in if c == b'/' then some ([], s) else rest

abbrev pub filled : Option (Text × Text) → Option (Text × Text)
filled (some (c ∷ part, rest)) = some (c ∷ part, rest)
filled other = none

abbrev pub all_digits : Text → Bool
all_digits [] = true
all_digits (c ∷ s) = is_digit c && all_digits s

-- `\d+$`
abbrev pub is_number_text : Text → Bool
is_number_text [] = false
is_number_text (c ∷ s) = is_digit c && all_digits s

-- `Number(prNumber)`, on digits
abbrev pub with_number : Text → Text → Text → Option PullRequestRef
with_number owner repo digits =
    if is_number_text digits
    then some (record { owner = owner; repo = repo; number = big_int digits })
    else none

abbrev pub after_repo : Text → Text → Option Text → Option PullRequestRef
after_repo owner repo none = none
after_repo owner repo (some digits) = with_number owner repo digits

abbrev pub after_owner : Text → Option (Text × Text) → Option PullRequestRef
after_owner owner none = none
after_owner owner (some (repo, rest)) = after_repo owner repo (after_prefix (codes "pull/") rest)

abbrev pub after_host : Option (Text × Text) → Option PullRequestRef
after_host none = none
after_host (some (owner, rest)) = after_owner owner (filled (to_slash rest))

abbrev pub after_scheme : Option Text → Option PullRequestRef
after_scheme none = none
after_scheme (some rest) = after_host (filled (to_slash rest))

-- the match of `/^https:\/\/github\.com\/([^/]+)\/([^/]+)\/pull\/(\d+)$/`
unfoldable pub parse_pull_request_url : Text → Option PullRequestRef
parse_pull_request_url url = after_scheme (after_prefix (codes "https://github.com/") url)

abbrev pub same_optional_text : Option Text → Option Text → Bool
same_optional_text none none = true
same_optional_text (some a) (some b) = text_eq a b
same_optional_text a b = false

abbrev pub lowered : (Text → Text) → Option Text → Option Text
lowered lower none = none
lowered lower (some a) = some (lower a)

-- `chainIdentifiersMatch` of `src/domain/chain-identifiers.ts`
unfoldable pub chain_identifiers_match : (Text → Text) → Option Text → Option Text → Bool
chain_identifiers_match lower a b = same_optional_text (lowered lower a) (lowered lower b)
