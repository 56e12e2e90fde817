-- ===== src/Job/Revision.antt =====
-- What a proposal keeps of the stored lines, and what it clears.
use mathlib.Core.Path.{ap₂}
use freeagents.Base.{
  Bool-cases, count, ℕ, ◌+◌, ◌≡◌, inl, inr, Bool, true, false, ◌&&◌, some, List, [], ◌∷◌, arith,
  Option-cases, ◌≤◌, Option, none, ok, throw_if, >>=-eq-ok, ok-injective, refl, sym, map, ◌∙◌, ◌≢◌,
  ◌++◌,
}
use freeagents.Base.Text.{Text, text_eq, text_eq_iff, trim}
use freeagents.Job.Model.{Party, buyer, agent, Criterion, JobFault}
use freeagents.Job.Lines.{
  find_match, keep_skipped, revise, ProposedLine, parse_party, or_throw, revise_lines,
}
use freeagents.Job.Agreement.{is_blank, criterion_text}
use freeagents.Job.Confirm.{All}

abbrev pub accepted_by : Party → Criterion → Bool
accepted_by buyer c = c.accepted_by_buyer
accepted_by agent c = c.accepted_by_agent

-- a line with this text that the party has accepted
abbrev pub accepted_as : Party → Text → Criterion → Bool
accepted_as party text c = text_eq c.text text && accepted_by party c

abbrev pub one_if : Bool → ℕ
one_if true = 1
one_if false = 0

keep_skipped-inv :
    (c : Criterion) (o : Option (Criterion × List Criterion)) {m : Criterion}
    {rest : List Criterion}
    → keep_skipped c o ≡ some (m, rest)
    → (r : List Criterion) × (o ≡ some (m, r)) × (rest ≡ c ∷ r)
keep_skipped-inv c none h = cc
keep_skipped-inv c (some (m', r)) h = (r, cc, cc)

-- A match has the text asked for, and the rest is the pool without it.
pub find_match-count :
    (q : Criterion → Bool) (text : Text) (pool : List Criterion) {m : Criterion}
    {rest : List Criterion}
    → find_match text pool ≡ some (m, rest)
    → (m.text ≡ text) × (count q pool ≡ count q rest + one_if (q m))
unfolding find_match
find_match-count q text [] h = cc
find_match-count q text (c ∷ pool) h = elim (Bool-cases (text_eq c.text text)) [
  | inl e ↦ ground (arith, text_eq_iff c.text text)
  | inr e ↦
      let (r, eo, er) = keep_skipped-inv c (find_match text pool) (rw e at h) in
      let (same, counted) = find_match-count q text pool eo in (same, rw er (ground arith))
]

-- the line that a match makes, and the line that no match makes
same_marks :
    (party seat : Party) (t text : Text) (c : Criterion)
    → c.text ≡ t
    → accepted_as party text (record {
      text = t;
      proposed_by = c.proposed_by;
      accepted_by_buyer = c.accepted_by_buyer;
      accepted_by_agent = c.accepted_by_agent;
    })
      ≡ accepted_as party text c
same_marks buyer seat t text c e = rw e
same_marks agent seat t text c e = rw e

no_marks :
    (party seat : Party) (t text : Text)
    → accepted_as party text (record {
      text = t;
      proposed_by = seat;
      accepted_by_buyer = false;
      accepted_by_agent = false;
    })
      ≡ false
no_marks buyer seat t text = ground arith
no_marks agent seat t text = ground arith

-- What became of one proposed line.
revise-count :
    (party seat : Party) (text t : Text) (pool : List Criterion)
    → let (line, rest) = revise t seat pool (find_match t pool) in
      (line.text ≡ t)
      × (count (accepted_as party text) rest + one_if (accepted_as party text line)
          ≤ count (accepted_as party text) pool)
revise-count party seat text t pool = elim (Option-cases (find_match t pool)) [
  | inl e ↦ rw e (refl, rw (no_marks party seat t text) (omega arith))
  | inr ((c, r), e) ↦
      let (same, counted) = find_match-count (accepted_as party text) t pool e in
      rw e (refl, rw (same_marks party seat t text c same) (omega arith))
]

abbrev pub proposed_text : ProposedLine → Text
proposed_text line = trim line.text

-- One round of the loop.
pub revise_lines-cons :
    (pool : List Criterion) (line : ProposedLine) (lines : List ProposedLine) {out : List Criterion}
    → revise_lines pool (line ∷ lines) ≡ ok out
    → (seat : Party) × (tail : List Criterion) × (let (c, rest) =
          revise (trim line.text) seat pool (find_match (trim line.text) pool) in
        (revise_lines rest lines ≡ ok tail) × (out ≡ c ∷ tail))
unfolding revise_lines
revise_lines-cons pool line lines h =
    let (u, eu, h₁) = >>=-eq-ok (throw_if (is_blank line.text) _) _ h in
    let (seat, es, h₂) = >>=-eq-ok (or_throw (parse_party line.proposed_by) _) _ h₁ in
    let (tail, et, h₃) = >>=-eq-ok (revise_lines _ lines) _ h₂ in
    (seat, tail, (et, sym (ok-injective JobFault h₃)))

-- A proposal's lines are the texts proposed, trimmed, in their order, and no acceptance is made
-- up: for each party and text, no more lines are accepted afterwards than were before.
pub revise_lines-count :
    (party : Party) (text : Text) (pool : List Criterion) (lines : List ProposedLine)
    {out : List Criterion}
    → revise_lines pool lines ≡ ok out
    → (map criterion_text out ≡ map proposed_text lines)
      × (count (accepted_as party text) out ≤ count (accepted_as party text) pool)
unfolding revise_lines
revise_lines-count party text pool [] h = rw (← ok-injective JobFault h) (refl, omega arith)
revise_lines-count party text pool (line ∷ lines) h =
    let (seat, tail, (et, eo)) = revise_lines-cons pool line lines h in
    let (same, bound) = revise-count party seat text (trim line.text) pool in
    let (texts, bound_after) =
      (revise_lines-count party text
        (revise (trim line.text) seat pool (find_match (trim line.text) pool)).1 lines et) in
    rw eo (ap₂ ◌∷◌ same texts, ground arith)

-- a stored line, as a caller of either seat sends it back
abbrev pub sent_back : Text → Criterion → ProposedLine
sent_back seat c = record { text = c.text; proposed_by = seat }

abbrev pub IsStoredLine : Criterion → Type 0
IsStoredLine c = (trim c.text ≡ c.text) × (c.text ≢ [])

text_eq_refl : (t : Text) → text_eq t t ≡ true
text_eq_refl t = (text_eq_iff t t).1 refl

not_blank : (c : Criterion) → IsStoredLine c → is_blank c.text ≡ false
not_blank c (e, n) = elim (Bool-cases (is_blank c.text)) [
  | inl b ↦ absurd (n (sym e ∙ (text_eq_iff (trim c.text) []).0 b))
  | inr b ↦ b
]

-- Lines sent back unchanged keep every mark and every author, whoever sends them.
pub revise_lines-same :
    (seat : Text) (party : Party) (cs : List Criterion)
    → parse_party seat ≡ some party
    → All IsStoredLine cs
    → revise_lines cs (map (sent_back seat) cs) ≡ ok cs
unfolding revise_lines
revise_lines-same seat party [] e h = refl
revise_lines-same seat party (c ∷ cs) e (stored, rest) =
    rw (not_blank c stored, e, stored.0, text_eq_refl c.text)
      (rw (revise_lines-same seat party cs e rest))

text_ne : (a b : Text) → a ≢ b → text_eq a b ≡ false
text_ne a b n = elim (Bool-cases (text_eq a b)) [
  | inl e ↦ absurd (n ((text_eq_iff a b).0 e))
  | inr e ↦ e
]

-- no line of the list has this text
abbrev pub Absent : Text → List Criterion → Type 0
Absent t cs = All (λ (c : Criterion). c.text ≢ t) cs

find_match-Absent : (t : Text) (cs : List Criterion) → Absent t cs → find_match t cs ≡ none
unfolding find_match
find_match-Absent t [] h = refl
find_match-Absent t (c ∷ cs) h = rw (text_ne c.text t h.0, find_match-Absent t cs h.1)

-- The lines behind a struck one are matched past it.
revise_lines-past :
    (seat : Text) (party : Party) (struck : Criterion) (cs : List Criterion)
    → parse_party seat ≡ some party
    → All IsStoredLine cs
    → Absent struck.text cs
    → revise_lines (struck ∷ cs) (map (sent_back seat) cs) ≡ ok cs
unfolding revise_lines
revise_lines-past seat party struck [] e h a = refl
revise_lines-past seat party struck (c ∷ cs) e (stored, rest) (n, a) =
    rw
      (
        not_blank c stored,
        e,
        stored.0,
        text_ne struck.text c.text (λ q. n (sym q)),
        text_eq_refl c.text,
      )
      (rw (revise_lines-past seat party struck cs e rest a))

-- Editing one line clears the marks of that line alone: the lines before and behind it keep
-- their texts, authors and marks, and the new text starts with no mark and the sender as author.
pub revise_lines-edit :
    (seat : Text) (party : Party) (old : Criterion) (text : Text) (xs ys : List Criterion)
    → parse_party seat ≡ some party
    → All IsStoredLine xs
    → All IsStoredLine ys
    → is_blank text ≡ false
    → Absent (trim text) (old ∷ ys)
    → Absent old.text ys
    → revise_lines (xs ++ (old ∷ ys)) (
        map (sent_back seat) xs
        ++ (record { text = text; proposed_by = seat } ∷ map (sent_back seat) ys))
      ≡ ok (
          xs
          ++ (record {
            text = trim text;
            proposed_by = party;
            accepted_by_buyer = false;
            accepted_by_agent = false;
          }
              ∷ ys))
unfolding revise_lines
revise_lines-edit seat party old text [] ys e hx hy blank new once =
    rw (blank, e, text_ne old.text (trim text) new.0, find_match-Absent (trim text) ys new.1)
      (rw (revise_lines-past seat party old ys e hy once))
revise_lines-edit seat party old text (x ∷ xs) ys e (stored, hx) hy blank new once =
    rw (not_blank x stored, e, stored.0, text_eq_refl x.text)
      (rw (revise_lines-edit seat party old text xs ys e hx hy blank new once))
