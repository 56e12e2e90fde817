-- ===== src/Job/Digest.antt =====
-- What the digest of `src/domain/hashing.ts` keeps of a text.
use mathlib.Core.Path.{ap₂}
use mathlib.Core.List.{append_assoc, map-append}
use freeagents.Base.{
  ◌==◌, if◌then◌else◌, Bool-cases, ℕ, ◌≡◌, refl, ◌≢◌, inl, inr, [], ◌∷◌, arith, ==_iff, sym, ap,
  ◌∙◌, List, ◌++◌, map,
}
use freeagents.Base.Text.{Text, trim_end, join}
use freeagents.Job.Hashing.{
  newline, carriage_return, normalise_line_ends, onto_first, split_lines, strip_newline, hash_spec,
  normalise,
}

-- `\r\n` in place of each `\n`
abbrev pub with_returns : Text → Text
with_returns [] = []
with_returns (c ∷ s) =
    let rest = with_returns s in if c == newline then carriage_return ∷ newline ∷ rest else c ∷ rest

-- no carriage return stands in the text
abbrev pub NoReturn : Text → Type 0
NoReturn [] = Unit
NoReturn (c ∷ s) = (c ≢ carriage_return) × NoReturn s

normalise_line_ends-plain :
    (c : ℕ) (s : Text)
    → c ≢ carriage_return
    → normalise_line_ends (c ∷ s) ≡ c ∷ normalise_line_ends s
unfolding normalise_line_ends
normalise_line_ends-plain c [] n = ground arith
normalise_line_ends-plain c (d ∷ s) n = ground arith

normalise_line_ends-pair :
    (s : Text)
    → normalise_line_ends (carriage_return ∷ newline ∷ s) ≡ newline ∷ normalise_line_ends s
unfolding normalise_line_ends
normalise_line_ends-pair [] = refl
normalise_line_ends-pair (d ∷ s) = refl

normalise_line_ends-with_returns :
    (s : Text) → NoReturn s → normalise_line_ends (with_returns s) ≡ normalise_line_ends s
unfolding normalise_line_ends
normalise_line_ends-with_returns [] h = refl
normalise_line_ends-with_returns (c ∷ s) (n, h) =
    let rest = normalise_line_ends-with_returns s h in
    elim (Bool-cases (c == newline)) [
      | inl e ↦ rw e (
          normalise_line_ends-pair (with_returns s)
          ∙ ap₂ ◌∷◌ (sym ((==_iff c newline).0 e)) rest
          ∙ sym (normalise_line_ends-plain c s n))
      | inr e ↦ rw e (
          normalise_line_ends-plain c (with_returns s) n
          ∙ ap (λ t. c ∷ t) rest
          ∙ sym (normalise_line_ends-plain c s n))
    ]

-- A text written with `\r\n` has the digest of the same text written with `\n`.
pub hash_spec-with_returns :
    (sha : Text → Text) (s : Text) → NoReturn s → hash_spec sha (with_returns s) ≡ hash_spec sha s
unfolding hash_spec
hash_spec-with_returns sha s h = rw (normalise_line_ends-with_returns s h)

-- the lines without the spaces at their ends, joined again
abbrev pub stripped_lines : Text → Text
stripped_lines s = join (newline ∷ []) (map trim_end (split_lines s))

normalise_line_ends-NoReturn : (s : Text) → NoReturn s → normalise_line_ends s ≡ s
unfolding normalise_line_ends
normalise_line_ends-NoReturn [] h = refl
normalise_line_ends-NoReturn (c ∷ s) (n, h) =
    normalise_line_ends-plain c s n ∙ ap (λ t. c ∷ t) (normalise_line_ends-NoReturn s h)

abbrev pub two_ends : Text
two_ends = newline ∷ newline ∷ []

NoReturn-two_ends : (s : Text) → NoReturn s → NoReturn (s ++ two_ends)
NoReturn-two_ends [] h = ((λ e. ground arith), ((λ e. ground arith), tt))
NoReturn-two_ends (c ∷ s) (n, h) = (n, NoReturn-two_ends s h)

onto_first-append :
    (c : ℕ) (ls ms : List Text) → ls ≢ [] → onto_first c (ls ++ ms) ≡ onto_first c ls ++ ms
onto_first-append c [] ms n = absurd (n refl)
onto_first-append c (l ∷ ls) ms n = refl

split_lines-ne : (s : Text) → split_lines s ≢ []
unfolding split_lines
split_lines-ne [] = λ e. cc
split_lines-ne (c ∷ s) = ground (arith, split_lines-ne s)

split_lines-two_ends : (s : Text) → split_lines (s ++ two_ends) ≡ split_lines s ++ ([] ∷ [] ∷ [])
unfolding split_lines
split_lines-two_ends [] = refl
split_lines-two_ends (c ∷ s) =
    rw
      (
        split_lines-two_ends s,
        onto_first-append c (split_lines s) ([] ∷ [] ∷ []) (split_lines-ne s),
      )
      (elim (Bool-cases (c == newline)) [ inl e ↦ rw e | inr e ↦ rw e ])

join-two_ends :
    (l : Text) (ls : List Text)
    → join (newline ∷ []) ((l ∷ ls) ++ ([] ∷ [] ∷ [])) ≡ join (newline ∷ []) (l ∷ ls) ++ two_ends
unfolding join
join-two_ends l [] = refl
join-two_ends l (m ∷ ls) = rw (join-two_ends m ls, append_assoc)

strip_newline-two_ends : (s : Text) → strip_newline (s ++ two_ends) ≡ s ++ (newline ∷ [])
unfolding strip_newline
strip_newline-two_ends [] = refl
strip_newline-two_ends (c ∷ []) = refl
strip_newline-two_ends (c ∷ d ∷ s) = ap (λ t. c ∷ t) (strip_newline-two_ends (d ∷ s))

join-two_ends_ne :
    (ls : List Text)
    → ls ≢ []
    → join (newline ∷ []) (map trim_end (ls ++ ([] ∷ [] ∷ [])))
      ≡ join (newline ∷ []) (map trim_end ls) ++ two_ends
unfolding trim_end
join-two_ends_ne [] n = absurd (n refl)
join-two_ends_ne (l ∷ ls) n = rw (map-append) (join-two_ends (trim_end l) (map trim_end ls))

-- One line end is taken off the end of a text, and no more: a text that ends in two still ends
-- in one when it is hashed.
pub normalise-two_ends :
    (s : Text) → NoReturn s → normalise (s ++ two_ends) ≡ stripped_lines s ++ (newline ∷ [])
unfolding normalise
normalise-two_ends s h =
    rw
      (
        normalise_line_ends-NoReturn (s ++ two_ends) (NoReturn-two_ends s h),
        split_lines-two_ends s,
        join-two_ends_ne (split_lines s) (split_lines-ne s),
      )
      (strip_newline-two_ends (stripped_lines s))
