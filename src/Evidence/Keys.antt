-- ===== src/Evidence/Keys.antt =====
-- Key and DID comparison: `didSuffix` of `src/domain/agent.ts` and `sameKey` of
-- `src/domain/compromise.ts`.
use freeagents.Base.{
  ℕ, Bool, true, false, ◌&&◌, [], ◌∷◌, Option, none, some, ◌==◌, if◌then◌else◌, ◌≡◌, refl,
}
use freeagents.Base.Text.{Text, codes, text_eq}

-- what follows a prefix, if the text has it
abbrev pub after_prefix : Text → Text → Option Text
after_prefix [] s = some s
after_prefix (p ∷ ps) [] = none
after_prefix (p ∷ ps) (c ∷ s) = let rest = after_prefix ps s in if p == c then rest else none

abbrev pub or_text : Text → Option Text → Text
or_text s none = s
or_text s (some t) = t

unfoldable pub did_suffix : Text → Text
did_suffix did = or_text did (after_prefix (codes "did:abt:") did)

-- `isAgentOperator` on two texts
unfoldable pub is_agent_operator : Text → Text → Bool
unfolding did_suffix
is_agent_operator [] operator_did = false
is_agent_operator (c ∷ acting) [] = false
is_agent_operator (c ∷ acting) (d ∷ operator) =
    text_eq (did_suffix (c ∷ acting)) (did_suffix (d ∷ operator))

-- The text before and behind the first `#`.
abbrev pub cons_front : ℕ → Option (Text × Text) → Option (Text × Text)
cons_front c none = none
cons_front c (some (did, fragment)) = some (c ∷ did, fragment)

unfoldable pub split_hash : Text → Option (Text × Text)
split_hash [] = none
split_hash (c ∷ s) =
    let rest = cons_front c (split_hash s) in if c == b'#' then some ([], s) else rest

abbrev pub same_parts : Option (Text × Text) → Option (Text × Text) → Bool
same_parts (some (a, f)) (some (b, g)) = text_eq (did_suffix a) (did_suffix b) && text_eq f g
same_parts _ _ = false

unfoldable pub same_key : Text → Text → Bool
unfolding split_hash did_suffix
same_key a b = same_parts (split_hash a) (split_hash b)

same_key_test : same_key (codes "did:abt:z1#k") (codes "z1#k") ≡ true
unfolding same_key split_hash did_suffix
same_key_test = refl
