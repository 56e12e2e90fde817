-- ===== src/Streams/Counted.antt =====
-- The table of `src/api/stream-caps.ts` against the open streams: what it should count, and a place
-- taken.
use freeagents.Base.{
  ℕ, zero, suc, ◌+◌, ◌-◌, ◌≤◌, Bool, true, false, not, ◌&&◌, List, [], ◌∷◌, ◌++◌, none, some, ◌==◌,
  leb, if◌then◌else◌, get_elem?, count, count-append, ◌≡◌, refl, sym, ap, ◌∙◌, arith, Bool-cases,
  inl, inr, ==_iff, ◌<◌,
}
use freeagents.Base.Text.{Text, text_eq, text_eq_iff}
use freeagents.Base.Table.{Table, get, set, get-set, get-set_other, get-delete, get-delete_other}
use freeagents.Streams.Caps.{
  CallerEntry, StreamPlace, StreamCaps, entry_or_new, held_in, entry_without, put_back, entry_with,
  with_place, mark_released,
}

-- an open stream of a caller, and one of a caller on a target
abbrev pub open_of : Text → StreamPlace → Bool
open_of caller p = not p.released && text_eq p.caller caller

abbrev pub open_on : Text → Text → StreamPlace → Bool
open_on caller target p = not p.released && (text_eq p.caller caller && text_eq p.target target)

-- the numbers that the table has
abbrev pub total_of : Text → Table CallerEntry → ℕ
total_of caller callers = (entry_or_new (get caller callers)).total

abbrev pub held_of : Text → Text → Table CallerEntry → ℕ
held_of caller target callers = held_in target (entry_or_new (get caller callers))

pub record IsCounted (caps : StreamCaps) : Type 0 where
  -- the table counts the open streams
  pub totals : (c : Text) → total_of c caps.callers ≡ count (open_of c) caps.places
  pub helds : (c t : Text) → held_of c t caps.callers ≡ count (open_on c t) caps.places
  -- and both caps hold
  pub total_bound : (c : Text) → count (open_of c) caps.places ≤ 10
  pub held_bound : (c t : Text) → count (open_on c t) caps.places ≤ 3

-- One target's entry more, and one less.
held_in-entry_with :
    (t t' : Text) (e : CallerEntry)
    → held_in t' (entry_with t e) ≡ (if text_eq t t' then held_in t' e + 1 else held_in t' e)
unfolding held_in
held_in-entry_with t t' e = elim (Bool-cases (text_eq t t')) [
  | inl h ↦ rw (h, sym ((text_eq_iff t t').0 h), get-set t (held_in t e + 1) e.per_target) refl
  | inr h ↦ rw (h, get-set_other t t' (held_in t e + 1) e.per_target h) refl
]

pub held_in-entry_without :
    (t t' : Text) (e : CallerEntry)
    → held_in t' (entry_without t e) ≡ (if text_eq t t' then held_in t' e - 1 else held_in t' e)
unfolding held_in
held_in-entry_without t t' e = elim (Bool-cases (held_in t e == 1)) [
  | inl one ↦ elim (Bool-cases (text_eq t t')) [
    | inl h ↦
        let same = (text_eq_iff t t').0 h in
        let held : held_in t e ≡ 1 = (==_iff (held_in t e) 1).0 one in
        rw (one, h, sym same, held, get-delete t e.per_target) refl
    | inr h ↦ rw (one, h, get-delete_other t t' e.per_target h) refl
  ]
  | inr more ↦ elim (Bool-cases (text_eq t t')) [
    | inl h ↦
        let same = (text_eq_iff t t').0 h in
        rw (more, h, sym same, get-set t (held_in t e - 1) e.per_target) refl
    | inr h ↦ rw (more, h, get-set_other t t' (held_in t e - 1) e.per_target h) refl
  ]
]

pub count-mark_released :
    (m : StreamPlace → Bool) (n : ℕ) (ps : List StreamPlace) (p : StreamPlace)
    → get_elem? ps n ≡ some p
    → p.released ≡ false
    → (k : (q : StreamPlace) → m (record q { released = true }) ≡ false)
    → count m (mark_released n ps) + (if m p then 1 else 0) ≡ count m ps
count-mark_released m n [] p e r k = cc
count-mark_released m zero (q ∷ ps) p e r k = let same : q ≡ p = cc in rw (k q, same) (ground arith)
count-mark_released m (suc n) (q ∷ ps) p e r k = ground (arith, count-mark_released m n ps p e r k)

pub count_on-le :
    (c t : Text) (ps : List StreamPlace) → count (open_on c t) ps ≤ count (open_of c) ps
count_on-le c t [] = omega arith
count_on-le c t (p ∷ ps) = ground (arith, count_on-le c t ps)

-- What the table says after an entry is stored, or deleted since nothing is left.
total_of-set :
    (c c' : Text) (e : CallerEntry) (callers : Table CallerEntry)
    → total_of c' (set c e callers) ≡ (if text_eq c c' then e.total else total_of c' callers)
total_of-set c c' e callers = elim (Bool-cases (text_eq c c')) [
  | inl h ↦
      rw (h, sym ((text_eq_iff c c').0 h)) (ap (λ o. (entry_or_new o).total) (get-set c e callers))
  | inr h ↦ rw h (ap (λ o. (entry_or_new o).total) (get-set_other c c' e callers h))
]

held_of-set :
    (c c' t : Text) (e : CallerEntry) (callers : Table CallerEntry)
    → held_of c' t (set c e callers) ≡ (if text_eq c c' then held_in t e else held_of c' t callers)
held_of-set c c' t e callers = elim (Bool-cases (text_eq c c')) [
  | inl h ↦ rw (h, sym ((text_eq_iff c c').0 h), get-set c e callers) refl
  | inr h ↦ rw (h, get-set_other c c' e callers h) refl
]

pub held_in-new : (t : Text) → held_in t (entry_or_new none) ≡ 0
unfolding held_in get
held_in-new t = refl

pub total_of-put_back :
    (c c' : Text) (e : CallerEntry) (callers : Table CallerEntry)
    → total_of c' (put_back c e callers) ≡ (if text_eq c c' then e.total else total_of c' callers)
total_of-put_back c c' e callers = elim (Bool-cases (leb e.total 0)) [
  | inl z ↦ elim (Bool-cases (text_eq c c')) [
    | inl h ↦
        rw (z, h, sym ((text_eq_iff c c').0 h))
          (ap (λ o. (entry_or_new o).total) (get-delete c callers) ∙ nothing e.total z)
    | inr h ↦ rw (z, h) (ap (λ o. (entry_or_new o).total) (get-delete_other c c' callers h))
  ]
  | inr z ↦ rw z (total_of-set c c' e callers)
]
  where
    nothing : (n : ℕ) → leb n 0 ≡ true → 0 ≡ n
    nothing n z = ground arith

pub held_of-put_back :
    (c c' t : Text) (e : CallerEntry) (callers : Table CallerEntry)
    → held_of c' t (put_back c e callers)
      ≡ (if text_eq c c' then (if leb e.total 0 then 0 else held_in t e) else held_of c' t callers)
held_of-put_back c c' t e callers = elim (Bool-cases (leb e.total 0)) [
  | inl z ↦ elim (Bool-cases (text_eq c c')) [
    | inl h ↦ rw (z, h, sym ((text_eq_iff c c').0 h), get-delete c callers) (held_in-new t)
    | inr h ↦ rw (z, h, get-delete_other c c' callers h) refl
  ]
  | inr z ↦ rw z (held_of-set c c' t e callers)
]

count-snoc :
    (m : StreamPlace → Bool) (ps : List StreamPlace) (p : StreamPlace)
    → count m (ps ++ (p ∷ [])) ≡ (if m p then count m ps + 1 else count m ps)
count-snoc m ps p = count-append m ps (p ∷ []) ∙ ground arith

if_cong :
    (b : Bool) {x y x' y' : ℕ}
    → (b ≡ true → x ≡ x')
    → (b ≡ false → y ≡ y')
    → (if b then x else y) ≡ (if b then x' else y')
if_cong true f g = f refl
if_cong false f g = g refl

both : (a b : Bool) → a && b ≡ true → (a ≡ true) × (b ≡ true)
both a b h = ground arith

-- A place taken: `acquire` behind its two tests.
pub with_place-IsCounted :
    (c t : Text) (caps : StreamCaps)
    → IsCounted caps
    → held_of c t caps.callers < 3
    → total_of c caps.callers < 10
    → IsCounted (with_place c t (entry_or_new (get c caps.callers)) caps)
with_place-IsCounted c t caps h free_t free_c =
    let e = entry_or_new (get c caps.callers) in
    let new : StreamPlace = record { caller = c; target = t; released = false } in
    record {
      totals = λ c'.
          total_of-set c c' (entry_with t e) caps.callers
          ∙ if_cong (text_eq c c')
              (λ k.
                ap (λ n. n + 1)
                  (h.totals c ∙ ap (λ z. count (open_of z) caps.places) ((text_eq_iff c c').0 k)))
              (λ k. h.totals c')
          ∙ sym (count-snoc (open_of c') caps.places new);
      helds = λ c' t'.
          held_of-set c c' t' (entry_with t e) caps.callers
          ∙ taken c' t'
          ∙ sym (count-snoc (open_on c' t') caps.places new);
      total_bound = λ c'.
          rw (count-snoc (open_of c') caps.places new) (elim (Bool-cases (text_eq c c')) [
            | inl k ↦ rw (k, sym ((text_eq_iff c c').0 k)) (let a = h.totals c in omega arith)
            | inr k ↦ rw k (h.total_bound c')
          ]);
      held_bound = λ c' t'.
          rw (count-snoc (open_on c' t') caps.places new)
            (elim (Bool-cases (text_eq c c' && text_eq t t')) [
              | inl k ↦
                  let (kc, kt) = both (text_eq c c') (text_eq t t') k in
                  rw (k, sym ((text_eq_iff c c').0 kc), sym ((text_eq_iff t t').0 kt))
                    (let a = h.helds c t in omega arith)
              | inr k ↦ rw k (h.held_bound c' t')
            ]);
    }
  where
    taken :
        (c' t' : Text)
        → (if text_eq c c'
            then held_in t' (entry_with t (entry_or_new (get c caps.callers)))
            else held_of c' t' caps.callers)
          ≡ (if text_eq c c' && text_eq t t'
              then count (open_on c' t') caps.places + 1
              else count (open_on c' t') caps.places)
    taken c' t' = elim (Bool-cases (text_eq c c')) [
      | inl k ↦
          rw
            (
              k,
              sym ((text_eq_iff c c').0 k),
              held_in-entry_with t t' (entry_or_new (get c caps.callers)),
            )
            (if_cong (text_eq t t') (λ _. ap (λ n. n + 1) (h.helds c t')) (λ _. h.helds c t'))
      | inr k ↦ rw k (h.helds c' t')
    ]
