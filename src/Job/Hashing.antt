-- ===== src/Job/Hashing.antt =====
-- `hashSpec` of `src/domain/hashing.ts`. SHA-256 is `node:crypto`'s: its hex digest of a text is
-- the parameter `sha256_hex`.
use freeagents.Base.{◌≡◌, refl, List, [], ◌∷◌, ◌++◌, ◌==◌, if◌then◌else◌, map, ℕ}
use freeagents.Base.Text.{Text, codes, trim_end, join}

abbrev pub newline : ℕ
newline = 10

abbrev pub carriage_return : ℕ
carriage_return = 13

-- `.replace(/\r\n/g, '\n').replace(/\r/g, '\n')`: a pair becomes one line end, and so does a
-- carriage return on its own.
unfoldable pub normalise_line_ends : Text → Text
normalise_line_ends [] = []
normalise_line_ends (c ∷ []) = (if c == carriage_return then newline else c) ∷ []
normalise_line_ends (c ∷ d ∷ s) =
    let rest = normalise_line_ends (d ∷ s) in
    if c == carriage_return then (if d == newline then rest else newline ∷ rest) else c ∷ rest

-- Puts a character in front of the first line.
abbrev pub onto_first : ℕ → List Text → List Text
onto_first c [] = (c ∷ []) ∷ []
onto_first c (l ∷ ls) = (c ∷ l) ∷ ls

-- `.split('\n')`
unfoldable pub split_lines : Text → List Text
split_lines [] = [] ∷ []
split_lines (c ∷ s) =
    let rest = split_lines s in if c == newline then [] ∷ rest else onto_first c rest

-- `if (s.endsWith('\n')) s = s.slice(0, -1)`
unfoldable pub strip_newline : Text → Text
strip_newline [] = []
strip_newline (c ∷ []) = if c == newline then [] else c ∷ []
strip_newline (c ∷ d ∷ s) = c ∷ strip_newline (d ∷ s)

-- The text that is hashed.
unfoldable pub normalise : Text → Text
unfolding normalise_line_ends split_lines strip_newline
normalise spec =
    let lines = split_lines (normalise_line_ends spec) in
    strip_newline (join (newline ∷ []) (map trim_end lines))

unfoldable pub hash_spec : (Text → Text) → Text → Text
unfolding normalise
hash_spec sha256_hex spec = codes "sha256:" ++ sha256_hex (normalise spec)

normalise_test : normalise (codes "a  \r\nb\r") ≡ codes "a\nb"
unfolding normalise trim_end join
normalise_test = refl
