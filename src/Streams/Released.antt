-- ===== src/Streams/Released.antt =====
-- The table of `src/api/stream-caps.ts` against the open streams: a place given back, and any calls.
use freeagents.Base.{
  ℕ, ◌+◌, ◌-◌, true, false, ◌&&◌, List, [], ◌∷◌, none, some, leb, if◌then◌else◌, get_elem?, count,
  ◌≡◌, refl, sym, ap, ◌∙◌, arith, Bool-cases, Option-cases, inl, inr,
}
use freeagents.Base.Text.{Text, text_eq, text_eq_iff}
use freeagents.Base.Table.{Table, get}
use freeagents.Streams.Caps.{
  CallerEntry, StreamPlace, StreamCaps, entry_or_new, held_in, entry_without, put_back, give,
  acquire, mark_released, release, create_stream_caps, StreamCall, acquire_call, release_call,
  run_streams,
}
use freeagents.Streams.Counted.{
  open_of, open_on, total_of, held_of, IsCounted, held_in-entry_without, count-mark_released,
  count_on-le, total_of-put_back, held_of-put_back, with_place-IsCounted, held_in-new,
}

module _ (n : ℕ) (places : List StreamPlace) (p : StreamPlace) (found : get_elem? places n ≡ some p)
    (is_open : p.released ≡ false) where
  -- One open stream less, for its caller and on its target.
  less_of :
      (c : Text)
      → count (open_of c) (mark_released n places) + (if text_eq p.caller c then 1 else 0)
        ≡ count (open_of c) places
  less_of c =
      let same : open_of c p ≡ text_eq p.caller c = rw is_open refl in
      (rw same at (count-mark_released (open_of c) n places p found is_open (λ q. refl)))

  less_on :
      (c t : Text)
      → count (open_on c t) (mark_released n places)
          + (if text_eq p.caller c && text_eq p.target t then 1 else 0)
        ≡ count (open_on c t) places
  less_on c t =
      let same : open_on c t p ≡ text_eq p.caller c && text_eq p.target t = rw is_open refl in
      (rw same at (count-mark_released (open_on c t) n places p found is_open (λ q. refl)))

text_eq_self : (s : Text) → text_eq s s ≡ true
text_eq_self s = (text_eq_iff s s).1 refl

give-some :
    (c t : Text) (callers : Table CallerEntry) {e : CallerEntry}
    → get c callers ≡ some e
    → leb (held_in t e) 0 ≡ false
    → give c t callers ≡ put_back c (entry_without t e) callers
unfolding give
give-some c t callers h k = rw (h, k) refl

-- The caller's entry with a place less counts what is open behind the release.
freed-IsCounted :
    (n : ℕ) (caps : StreamCaps) (p : StreamPlace)
    → IsCounted caps
    → get_elem? caps.places n ≡ some p
    → p.released ≡ false
    → (e : CallerEntry) → get p.caller caps.callers ≡ some e
    → IsCounted (record {
      callers = give p.caller p.target caps.callers;
      places = mark_released n caps.places;
    })
freed-IsCounted n caps p h found is_open e there = record {
  totals = λ c'.
      rw (give-some p.caller p.target caps.callers there present)
        (total_of-put_back p.caller c' (entry_without p.target e) caps.callers ∙ total c');
  helds = λ c' t'.
      rw (give-some p.caller p.target caps.callers there present)
        (held_of-put_back p.caller c' t' (entry_without p.target e) caps.callers ∙ held c' t');
  total_bound = λ c'. let a = fewer c' in let b = h.total_bound c' in omega arith;
  held_bound = λ c' t'. let a = fewer_on c' t' in let b = h.held_bound c' t' in omega arith;
}
  where
    fewer :
        (c' : Text)
        → count (open_of c') (mark_released n caps.places) + (if text_eq p.caller c' then 1 else 0)
          ≡ count (open_of c') caps.places
    fewer c' = less_of n caps.places p found is_open c'

    fewer_on :
        (c' t' : Text)
        → count (open_on c' t') (mark_released n caps.places)
            + (if text_eq p.caller c' && text_eq p.target t' then 1 else 0)
          ≡ count (open_on c' t') caps.places
    fewer_on c' t' = less_on n caps.places p found is_open c' t'

    e_total : e.total ≡ count (open_of p.caller) caps.places
    e_total = sym (ap (λ o. (entry_or_new o).total) there) ∙ h.totals p.caller

    e_held : (t' : Text) → held_in t' e ≡ count (open_on p.caller t') caps.places
    e_held t' = sym (ap (λ o. held_in t' (entry_or_new o)) there) ∙ h.helds p.caller t'

    present : leb (held_in p.target e) 0 ≡ false
    present =
        let one =
          (rw (text_eq_self p.caller, text_eq_self p.target) at (fewer_on p.caller p.target)) in
        let all = e_held p.target in ground arith

    one_less : e.total - 1 ≡ count (open_of p.caller) (mark_released n caps.places)
    one_less =
        let one = (rw (text_eq_self p.caller) at (fewer p.caller)) in
        let all = e_total in omega arith

    total :
        (c' : Text)
        → (if text_eq p.caller c' then e.total - 1 else total_of c' caps.callers)
          ≡ count (open_of c') (mark_released n caps.places)
    total c' = elim (Bool-cases (text_eq p.caller c')) [
      | inl k ↦ rw (k, sym ((text_eq_iff p.caller c').0 k)) one_less
      | inr k ↦ rw k (h.totals c' ∙ (let same = (rw k at (fewer c')) in omega arith))
    ]

    on_target :
        (t' : Text)
        → held_in t' (entry_without p.target e)
          ≡ count (open_on p.caller t') (mark_released n caps.places)
    on_target t' = held_in-entry_without p.target t' e ∙ elim (Bool-cases (text_eq p.target t')) [
      | inl m ↦
          let one = (rw (text_eq_self p.caller, m) at (fewer_on p.caller t')) in
          let all = e_held t' in rw m (omega arith)
      | inr m ↦
          let same = (rw (text_eq_self p.caller, m) at (fewer_on p.caller t')) in
          let all = e_held t' in rw m (omega arith)
    ]

    held :
        (c' t' : Text)
        → (if text_eq p.caller c'
            then (if leb (e.total - 1) 0 then 0 else held_in t' (entry_without p.target e))
            else held_of c' t' caps.callers)
          ≡ count (open_on c' t') (mark_released n caps.places)
    held c' t' = elim (Bool-cases (text_eq p.caller c')) [
      | inl k ↦
          rw (k, sym ((text_eq_iff p.caller c').0 k))
            (elim (Bool-cases (leb (e.total - 1) 0)) [
              | inl z ↦
                  let few = count_on-le p.caller t' (mark_released n caps.places) in
                  let one = one_less in rw z (ground arith)
              | inr z ↦ rw z (on_target t')
            ])
      | inr k ↦ rw k (h.helds c' t' ∙ (let same = (rw k at (fewer_on c' t')) in omega arith))
    ]

-- A place given back: `release` on one that is open.
give-IsCounted :
    (n : ℕ) (caps : StreamCaps) (p : StreamPlace)
    → IsCounted caps
    → get_elem? caps.places n ≡ some p
    → p.released ≡ false
    → IsCounted (record {
      callers = give p.caller p.target caps.callers;
      places = mark_released n caps.places;
    })
give-IsCounted n caps p h found is_open = elim (Option-cases (get p.caller caps.callers)) [
  | inl gone ↦
      let one = less_on n caps.places p found is_open p.caller p.target in
      let a = h.helds p.caller p.target in
      absurd (nothing gone (rw (text_eq_self p.caller, text_eq_self p.target) at one) a)
  | inr (e, there) ↦ freed-IsCounted n caps p h found is_open e there
]
  where
    nothing :
        get p.caller caps.callers ≡ none
        → count (open_on p.caller p.target) (mark_released n caps.places) + 1
          ≡ count (open_on p.caller p.target) caps.places
        → held_of p.caller p.target caps.callers ≡ count (open_on p.caller p.target) caps.places
        → ⊥
    nothing gone one a =
        let none_held = ap (λ o. held_in p.target (entry_or_new o)) gone ∙ held_in-new p.target in
        omega arith

release-IsCounted : (n : ℕ) (caps : StreamCaps) → IsCounted caps → IsCounted (release n caps)
unfolding release
release-IsCounted n caps h = elim (Option-cases (get_elem? caps.places n)) [
  | inl e ↦ rw e h
  | inr (p, e) ↦ elim (Bool-cases p.released) [
    | inl r ↦ rw (e, r) h
    | inr r ↦ rw (e, r) (give-IsCounted n caps p h e r)
  ]
]

acquire-IsCounted :
    (c t : Text) (caps : StreamCaps) → IsCounted caps → IsCounted (acquire c t caps).0
unfolding acquire
acquire-IsCounted c t caps h = elim (Bool-cases (leb 3 (held_of c t caps.callers))) [
  | inl k ↦ rw k h
  | inr k ↦ elim (Bool-cases (leb 10 (total_of c caps.callers))) [
    | inl m ↦ rw (k, m) h
    | inr m ↦ rw (k, m) (with_place-IsCounted c t caps h (ground arith) (ground arith))
  ]
]

-- After any calls on new caps, releases of a place again and of unknown places included: what the
-- table says of a caller, and of a caller on a target, is the number of places that are given and
-- not released, and no caller holds more than ten, or more than three on one target.
pub run_streams-IsCounted : (cs : List StreamCall) → IsCounted (run_streams cs create_stream_caps)
unfolding run_streams get
run_streams-IsCounted cs = from cs create_stream_caps new
  where
    from :
        (cs : List StreamCall) (caps : StreamCaps)
        → IsCounted caps
        → IsCounted (run_streams cs caps)
    from [] caps h = h
    from (acquire_call c t ∷ cs) caps h =
        from cs (acquire c t caps).0 (acquire-IsCounted c t caps h)
    from (release_call n ∷ cs) caps h = from cs (release n caps) (release-IsCounted n caps h)

    new : IsCounted create_stream_caps
    new = record {
      totals = λ c. refl;
      helds = λ c t. held_in-new t;
      total_bound = λ c. omega arith;
      held_bound = λ c t. omega arith;
    }
