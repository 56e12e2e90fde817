-- ===== src/Evidence/Disputes.antt =====
-- Which reports dispute a signature, of `src/domain/compromise.ts`.
use freeagents.Base.{
  ℕ, ◌≤◌, Bool, true, false, ◌&&◌, List, ◌∷◌, Option, none, some, is_some, leb, if◌then◌else◌, ◌≡◌,
  ◌↔◌, refl, arith, Bool-cases, inl, inr,
}
use freeagents.Base.Text.{Text}
use freeagents.Evidence.Moment.{Moment, parse_instant}
use freeagents.Evidence.Names.{AreSameKey, same_key_iff}
use freeagents.Evidence.Keys.{same_key, same_parts, split_hash}
use freeagents.Evidence.Compromise.{
  CompromiseReport, is_window, report_well_formed, is_between, window_contains, is_disputing,
  disputing, disputed_by,
}

-- The report names the key that signed, and the instant lies in its window, both ends included.
pub record Disputes (date_parse : Text → Option ℕ) (report : CompromiseReport) (signed_by : Text)
    (signed_at : Moment) : Type 0 where
  pub key : AreSameKey report.key signed_by
  pub since : ℕ
  pub signed : ℕ
  pub reported : ℕ
  pub since_at : parse_instant date_parse report.since ≡ some since
  pub signed_at_ms : parse_instant date_parse signed_at ≡ some signed
  pub reported_at_ms : parse_instant date_parse report.reported_at ≡ some reported
  pub opens : since ≤ signed
  pub closes : signed ≤ reported

-- A key that is the same as another has a fragment.
same_key-split : (a b : Text) → same_key a b ≡ true → is_some (split_hash a) ≡ true
unfolding same_key
same_key-split a b h = go (split_hash a) (split_hash b) h
  where
    go : (x y : Option (Text × Text)) → same_parts x y ≡ true → is_some x ≡ true
    go none y h = cc
    go (some x) y h = refl

is_between-eq :
    (a b c : Option ℕ)
    → is_window a c && is_between a b c ≡ true
    → (x : ℕ) × (y : ℕ) × (z : ℕ) × (a ≡ some x) × (b ≡ some y) × (c ≡ some z) × (x ≤ y) × (y ≤ z)
is_between-eq none b c h = cc
is_between-eq (some x) b none h = cc
is_between-eq (some x) none (some z) h = absurd (ground arith)
is_between-eq (some x) (some y) (some z) h = (x, y, z, refl, refl, refl, ground arith, ground arith)

is_window-between : (x y z : ℕ) → x ≤ y → y ≤ z → (leb x z ≡ true) × (leb x y && leb y z ≡ true)
is_window-between x y z h k = (ground arith, ground arith)

both_tests :
    (key has window between : Bool)
    → key && (if has && window then between else false) ≡ true
    → (key ≡ true) × (window && between ≡ true)
both_tests key has window between h = ground arith

is_disputing_iff :
    (date_parse : Text → Option ℕ) (signed_by : Text) (signed_at : Moment) (r : CompromiseReport)
    → (is_disputing date_parse signed_by signed_at r ≡ true)
      ↔ Disputes date_parse r signed_by signed_at
unfolding is_disputing window_contains report_well_formed
is_disputing_iff date_parse signed_by signed_at r = (there, back)
  where
    there :
        is_disputing date_parse signed_by signed_at r ≡ true
        → Disputes date_parse r signed_by signed_at
    there h =
        let since = parse_instant date_parse r.since in
        let signed = parse_instant date_parse signed_at in
        let reported = parse_instant date_parse r.reported_at in
        let (k, w) =
          both_tests (same_key r.key signed_by) (is_some (split_hash r.key))
            (is_window since reported) (is_between since signed reported) h in
        let (x, y, z, a, b, c, p, q) = is_between-eq since signed reported w in
        record {
          key = (same_key_iff r.key signed_by).0 k;
          since = x;
          signed = y;
          reported = z;
          since_at = a;
          signed_at_ms = b;
          reported_at_ms = c;
          opens = p;
          closes = q;
        }

    back :
        Disputes date_parse r signed_by signed_at
        → is_disputing date_parse signed_by signed_at r ≡ true
    back d =
        let (w, b) = is_window-between d.since d.signed d.reported d.opens d.closes in
        let key = (same_key_iff r.key signed_by).1 d.key in
        rw
          (key, same_key-split r.key signed_by key, d.since_at, d.signed_at_ms, d.reported_at_ms, w)
          b

-- Of a list of reports, the first disputes the signature and is kept exactly if it names the key
-- that signed, with the same fragment and with the same DID in its full or in its short form, and
-- its window holds the instant, both ends included; the rest is judged apart from it.
pub disputed_by_lem :
    (date_parse : Text → Option ℕ) (r : CompromiseReport) (rs : List CompromiseReport)
    (signed_by : Text) (signed_at : Moment)
    → (Disputes date_parse r signed_by signed_at
        → disputed_by date_parse (r ∷ rs) signed_by signed_at
          ≡ r ∷ disputed_by date_parse rs signed_by signed_at)
      × (¬ Disputes date_parse r signed_by signed_at
          → disputed_by date_parse (r ∷ rs) signed_by signed_at
            ≡ disputed_by date_parse rs signed_by signed_at)
unfolding disputed_by disputing
disputed_by_lem date_parse r rs signed_by signed_at =
    let (f, g) = is_disputing_iff date_parse signed_by signed_at r in
    (
      λ d. rw (g d, d.signed_at_ms) refl,
      λ n. elim (Bool-cases (is_disputing date_parse signed_by signed_at r)) [
        | inl k ↦ absurd (n (f k))
        | inr k ↦ rw k refl
      ],
    )
