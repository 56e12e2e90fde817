-- ===== src/Server/Clocks/Listed.antt =====
-- The clock of the list reads, `liveLapsesForList` of `src/api/app.ts`, against the read of one job.
use mathlib.Core.Path.{subst}
use freeagents.Base.{
  ◌≡◌, refl, sym, ap, ◌∙◌, inl, inr, Bool-cases, Option, none, some, List, [], ◌∷◌, IsIn, in_head,
  in_tail,
}
use freeagents.Base.Text.{Text, text_eq, text_eq_iff}
use freeagents.Base.Table.{Table, get, set, get-set, get-set_other}
use freeagents.Job.Model.{Job}
use freeagents.Server.Ports.{Failure, State, Ports}
use freeagents.Server.Route.{Reply, sent, value}
use freeagents.Server.Post.{Post, is_sent, is_value, bind-Post, pure-Post, weaken-Post}
use freeagents.Server.Clocks.{
  Loaded, kept_row, apply_live_lapses, live_or_stored, live_unless_answered, live_lapses_for_list,
}

-- What the read of one stored job gives at some time: the job that the load answers, or the stored
-- job where the load is refused.
pub data IsRead (ports : Ports) (stored : Job) : Job → Type 0 where
  answers :
      {row : Job} (s s' : State) (loaded : Loaded)
      → apply_live_lapses ports stored s ≡ (value loaded, s')
      → row ≡ loaded.job
      → IsRead ports stored row
  keeps :
      {row : Job} (s s' : State) (f : Failure)
      → apply_live_lapses ports stored s ≡ (sent f, s')
      → row ≡ stored
      → IsRead ports stored row

-- the read of a listed job with the id
abbrev pub IsAnswer : Ports → List Job → Text → Job → Type 0
IsAnswer ports listed id row =
    (stored : Job) × IsIn stored listed × (stored.id ≡ id) × IsRead ports stored row

-- the rows that two lists pair, one for one and in order
abbrev pub Pairs : (Job → Job → Type 0) → List Job → List Job → Type 0
Pairs R [] [] = Unit
Pairs R [] (row ∷ rows) = ⊥
Pairs R (job ∷ jobs) [] = ⊥
Pairs R (job ∷ jobs) (row ∷ rows) = R job row × Pairs R jobs rows

-- jobs of one id have one row
abbrev pub AreOnePerId : List Job → List Job → Type 0
AreOnePerId (job ∷ jobs) (row ∷ rows) =
    Pairs (λ later other. later.id ≡ job.id → other ≡ row) jobs rows × AreOnePerId jobs rows
AreOnePerId jobs rows = Unit

abbrev IsRemembered : Table Job → Job → Job → Type 0
IsRemembered memory job row = (q : Job) → get job.id memory ≡ some q → row ≡ q

some_eq : (a b : Job) → ◌≡◌ {A = Option Job} (some a) (some b) → a ≡ b
some_eq a b h = cc

Pairs-map :
    (R T : Job → Job → Type 0) (jobs rows : List Job)
    → ((j q : Job) → R j q → T j q)
    → Pairs R jobs rows
    → Pairs T jobs rows
Pairs-map R T [] [] f p = tt
Pairs-map R T (j ∷ jobs) (q ∷ rows) f p = (f j q p.0, Pairs-map R T jobs rows f p.1)
Pairs-map R T [] (q ∷ rows) f p = p
Pairs-map R T (j ∷ jobs) [] f p = p

module _ (ports : Ports) (listed : List Job) where
  abbrev AreAnswers : Table Job → Type 0
  AreAnswers memory =
      (id : Text) (row : Job) → get id memory ≡ some row → IsAnswer ports listed id row

  IsRead-Post :
      (stored : Job) (s : State)
      → Post (λ f s'. ⊥) (λ row s'. IsRead ports stored row) (live_or_stored ports stored s)
  unfolding live_or_stored
  IsRead-Post stored s = go (apply_live_lapses ports stored s) refl
    where
      go :
          (r : Reply Loaded × State)
          → apply_live_lapses ports stored s ≡ r
          → Post (λ f s'. ⊥) (λ row s'. IsRead ports stored row) (kept_row stored r)
      go (sent f, s') e = is_value _ _ (keeps s s' f e refl)
      go (value loaded, s') e = is_value _ _ (answers s s' loaded e refl)

  -- the row of one job, remembered or read
  row-Post :
      (stored : Job) (o : Option Job) (s : State)
      → IsIn stored listed
      → ((row : Job) → o ≡ some row → IsAnswer ports listed stored.id row)
      → Post
          (λ f s'. ⊥)
          (λ row s'. IsAnswer ports listed stored.id row × ((q : Job) → o ≡ some q → row ≡ q))
          (live_unless_answered ports o stored s)
  row-Post stored (some row) s m h = pure-Post row s (h row refl, λ q e. cc)
  row-Post stored none s m h =
      weaken-Post (IsRead-Post stored s) (λ f t u. u) λ row t r. ((stored, m, refl, r), λ q e. cc)

  set-AreAnswers :
      (memory : Table Job) (id : Text) (row : Job)
      → AreAnswers memory
      → IsAnswer ports listed id row
      → AreAnswers (set id row memory)
  set-AreAnswers memory id row h a key q e = elim (Bool-cases (text_eq id key)) [
    | inl k ↦
        let same : id ≡ key = (text_eq_iff id key).0 k in
        let found : row ≡ q =
          some_eq row q
            (sym (get-set id row memory) ∙ ap (λ x. get x (set id row memory)) same ∙ e) in
        subst (λ x. IsAnswer ports listed x q) same (subst (IsAnswer ports listed id) found a)
    | inr k ↦ h key q (sym (get-set_other id key row memory k) ∙ e)
  ]

  -- what the rest remembers, said of the memory before the row of the head was put into it
  earlier_fact :
      (memory : Table Job) (id : Text) (row : Job)
      → ((q : Job) → get id memory ≡ some q → row ≡ q)
      → (j r : Job) → IsRemembered (set id row memory) j r
      → IsRemembered memory j r
  earlier_fact memory id row known j r h q e = elim (Bool-cases (text_eq id j.id)) [
    | inl k ↦
        let same : id ≡ j.id = (text_eq_iff id j.id).0 k in
        let now : get j.id (set id row memory) ≡ some row =
          ap (λ x. get x (set id row memory)) (sym same) ∙ get-set id row memory in
        h row now ∙ known q (ap (λ x. get x memory) same ∙ e)
    | inr k ↦ h q (get-set_other id j.id row memory k ∙ e)
  ]

  head_fact :
      (memory : Table Job) (id : Text) (row j r : Job)
      → IsRemembered (set id row memory) j r
      → j.id ≡ id
      → r ≡ row
  head_fact memory id row j r h e =
      h row (ap (λ x. get x (set id row memory)) e ∙ get-set id row memory)

  abbrev IsListed : Table Job → List Job → List Job → Type 0
  IsListed memory jobs rows =
      Pairs (λ job row. IsAnswer ports listed job.id row) jobs rows
      × Pairs (IsRemembered memory) jobs rows
      × AreOnePerId jobs rows

  list-Post :
      (memory : Table Job) (jobs : List Job) (s : State)
      → ((k : Job) → IsIn k jobs → IsIn k listed)
      → AreAnswers memory
      → Post
          (λ f s'. ⊥)
          (λ rows s'. IsListed memory jobs rows)
          (live_lapses_for_list ports memory jobs s)
  unfolding live_lapses_for_list
  list-Post memory [] s sub h = pure-Post [] s (tt, tt, tt)
  list-Post memory (stored ∷ jobs) s sub h =
      bind-Post _ _ s (row-Post stored (get stored.id memory) s (sub stored in_head) (h stored.id))
        λ row s' q.
          let later = set stored.id row memory in
          bind-Post _ _ s'
            (list-Post later jobs s' (λ k m. sub k (in_tail m))
              (set-AreAnswers memory stored.id row h q.0))
            λ rows t k. pure-Post (row ∷ rows) t (
              (q.0, k.0),
              (q.1, Pairs-map _ _ jobs rows (earlier_fact memory stored.id row q.1) k.1),
              (Pairs-map _ _ jobs rows (head_fact memory stored.id row) k.1, k.2),
            )

listed_reply :
    {P : List Job → Type 0} {r : Reply (List Job) × State}
    → Post (λ f s'. ⊥) (λ rows s'. P rows) r
    → (rows : List Job) × (r.0 ≡ value rows) × P rows
listed_reply (is_sent f s u) = absurd u
listed_reply (is_value rows s p) = (rows, refl, p)

-- A list read is never refused. It answers, in order, a row for each stored row: what the read of a
-- listed job of this id gives, which is the stored row where that read is refused. Stored rows of
-- one id have one answer.
pub live_lapses_for_list-answers :
    (ports : Ports) (jobs : List Job) (s : State)
    → (rows : List Job) × ((live_lapses_for_list ports [] jobs s).0 ≡ value rows)
      × (Pairs (λ job row. IsAnswer ports jobs job.id row) jobs rows × AreOnePerId jobs rows)
unfolding get
live_lapses_for_list-answers ports jobs s =
    let (rows, e, k) = listed_reply (list-Post ports jobs [] jobs s (λ k m. m) (λ id row h. cc)) in
    (rows, e, (k.0, k.2))
