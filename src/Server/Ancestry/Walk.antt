-- ===== src/Server/Ancestry/Walk.antt =====
-- What the walk through the parents finds: a commit that parent steps reach.
use mathlib.Core.Path.{subst}
use freeagents.Base.{
  ℕ, zero, suc, ◌+◌, ◌≤◌, ◌<◌, ◌≡◌, refl, sym, Bool, true, false, ◌||◌, some, List, [], ◌∷◌, ◌++◌,
  arith,
}
use freeagents.Base.Text.{Text, text_eq, text_eq_iff}
use freeagents.Job.Model.{Repo}
use freeagents.Server.Ports.{State, Ports}
use freeagents.Server.Route.{value}
use freeagents.Server.Ancestry.{contains, Round, scan, is_empty, walk, descends_from}
use freeagents.Server.Ends.{Ends, pure-Ends, weaken-Ends, if-Ends, bind-Ends, ask-Ends, value-Post}

-- what is reached from a commit over so many parents
pub data Reaches (parents : Text → List Text) (sha : Text) : ℕ → Text → Type 0 where
  start : Reaches parents sha zero sha
  follow :
      {n : ℕ} {child mother : Text}
      → Reaches parents sha n child
      → contains mother (parents child) ≡ true
      → Reaches parents sha (suc n) mother

abbrev AllTexts : (Text → Type 0) → List Text → Type 0
AllTexts P [] = Unit
AllTexts P (x ∷ xs) = P x × AllTexts P xs

append-AllTexts :
    (P : Text → Type 0) (xs ys : List Text) → AllTexts P xs → AllTexts P ys → AllTexts P (xs ++ ys)
append-AllTexts P [] ys h k = k
append-AllTexts P (x ∷ xs) ys h k = (h.0, append-AllTexts P xs ys h.1 k)

contains-head : (x : Text) (xs : List Text) → contains x (x ∷ xs) ≡ true
contains-head x xs = rw ((text_eq_iff x x).1 refl) refl

contains-tail : (y x : Text) (xs : List Text) → contains y xs ≡ true → contains y (x ∷ xs) ≡ true
contains-tail y x xs h = ground (arith, h)

members-AllTexts :
    (P : Text → Type 0) (xs : List Text) → ((x : Text) → contains x xs ≡ true → P x) → AllTexts P xs
members-AllTexts P [] h = tt
members-AllTexts P (x ∷ xs) h =
    (h x (contains-head x xs), members-AllTexts P xs λ y k. h y (contains-tail y x xs k))

module _ (ports : Ports) (repo : Repo) (target sha : Text) (parents : Text → List Text)
    (answers : (t : ℕ) (c : Text) (ps : List Text)
      → ports.commit_parents t repo c ≡ some ps
      → ps ≡ parents c) where
  -- what a round says, at a depth
  abbrev IsRound : ℕ → Round → Type 0
  IsRound n round =
      (round.found ≡ true → Reaches parents sha n target)
      × AllTexts (Reaches parents sha (suc n)) round.next

  scan-Ends :
      (n : ℕ) (frontier visited next : List Text)
      → AllTexts (Reaches parents sha n) frontier
      → AllTexts (Reaches parents sha (suc n)) next
      → Ends (IsRound n) (scan ports repo target frontier visited next)
  unfolding scan
  scan-Ends n [] visited next h k = pure-Ends (IsRound n) _ ((λ e. cc), k)
  scan-Ends n (c ∷ rest) visited next h k =
      if-Ends (IsRound n) (text_eq c target) _ _
        (λ e.
          pure-Ends (IsRound n) _
            ((λ f. subst (Reaches parents sha n) ((text_eq_iff c target).0 e) h.0), k))
        λ e.
          if-Ends (IsRound n) (contains c visited) _ _ (λ v. scan-Ends n rest visited next h.1 k)
            λ v. bind-Ends _ (IsRound n) _ _ (ask-Ends _ _) λ ps q.
              scan-Ends n rest (c ∷ visited) (next ++ ps) h.1 (
                append-AllTexts _ next ps k (
                  subst (AllTexts (Reaches parents sha (suc n))) (sym (answers q.0 c ps q.1))
                    (members-AllTexts _ (parents c) λ y m. follow h.0 m)))

  abbrev IsFoundFrom : ℕ → ℕ → Bool → Type 0
  IsFoundFrom n fuel b = b ≡ true → (m : ℕ) × (m < n + fuel) × Reaches parents sha m target

  walk-Ends :
      (n fuel : ℕ) (frontier visited : List Text)
      → AllTexts (Reaches parents sha n) frontier
      → Ends (IsFoundFrom n fuel) (walk ports repo target fuel frontier visited)
  unfolding walk
  walk-Ends n zero frontier visited h = pure-Ends (IsFoundFrom n zero) false (λ e. cc)
  walk-Ends n (suc fuel) frontier visited h =
      bind-Ends _ (IsFoundFrom n (suc fuel)) _ _ (scan-Ends n frontier visited [] h tt) λ r q.
        if-Ends (IsFoundFrom n (suc fuel)) (r.found || is_empty r.next) _ _
          (λ e. pure-Ends (IsFoundFrom n (suc fuel)) r.found (λ f. (n, omega arith, q.0 f)))
          λ e.
            weaken-Ends _ _ _ (walk-Ends (suc n) fuel r.next r.visited q.1)
              λ b k f. let (m, lt, path) = k f in (m, omega arith, path)

-- The walk says yes only for a commit that descends from the target, over at most 500 parents.
pub descends_from-Reaches :
    (ports : Ports) (repo : Repo) (target sha : Text) (parents : Text → List Text)
    → ((t : ℕ) (c : Text) (ps : List Text)
        → ports.commit_parents t repo c ≡ some ps
        → ps ≡ parents c)
    → (s s' : State) → descends_from ports repo target sha s ≡ (value true, s')
    → (m : ℕ) × (m ≤ 500) × Reaches parents sha m target
unfolding descends_from
descends_from-Reaches ports repo target sha parents answers s s' e =
    let walked = walk-Ends ports repo target sha parents answers 0 501 (sha ∷ []) [] (start, tt) in
    let (m, lt, path) = value-Post (walked.at s) e refl in (m, omega arith, path)
