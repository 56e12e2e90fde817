-- ===== src/Evidence/Names.antt =====
-- What it means that two texts name one DID, or one key, said without the comparisons of
-- `src/domain/agent.ts` and `src/domain/compromise.ts`.
use mathlib.Core.Path.{subst}
use freeagents.Base.{
  ℕ, ◌≡◌, ◌≢◌, ◌↔◌, ◌∙◌, refl, sym, ap, inl, inr, Bool, true, false, ◌&&◌, ◌==◌, Bool-cases, Option,
  none, some, [], ◌∷◌, ◌++◌, arith,
}
use freeagents.Base.Text.{Text, codes, text_eq, text_eq_iff}
use freeagents.Evidence.Keys.{
  after_prefix, or_text, did_suffix, is_agent_operator, cons_front, split_hash, same_parts,
  same_key,
}

abbrev pub did_method : Text
did_method = codes "did:abt:"

-- A DID in its full form, or in the short form of wallets, which is its suffix alone.
pub data IsDidOf (suffix : Text) : Text → Type 0 where
  is_full : {did : Text} → did ≡ did_method ++ suffix → IsDidOf suffix did
  is_short : {did : Text} → did ≡ suffix → ((s : Text) → did ≢ did_method ++ s) → IsDidOf suffix did

-- two forms of one DID
pub record AreSameDid (a b : Text) : Type 0 where
  pub suffix : Text
  pub left : IsDidOf suffix a
  pub right : IsDidOf suffix b

abbrev pub HasNoHash : Text → Type 0
HasNoHash [] = Unit
HasNoHash (c ∷ s) = (c ≢ b'#') × HasNoHash s

-- a DID with this suffix, a `#` and the fragment
pub record IsKeyOf (suffix fragment key : Text) : Type 0 where
  pub did : Text
  pub written : key ≡ did ++ (b'#' ∷ fragment)
  pub first : HasNoHash did
  pub names : IsDidOf suffix did

-- two texts that name one key, each in either form of its DID
pub record AreSameKey (a b : Text) : Type 0 where
  pub suffix : Text
  pub fragment : Text
  pub left : IsKeyOf suffix fragment a
  pub right : IsKeyOf suffix fragment b

after_prefix-append : (p s : Text) → after_prefix p (p ++ s) ≡ some s
after_prefix-append [] s = refl
after_prefix-append (c ∷ p) s = ground (arith, after_prefix-append p s)

append-after_prefix : (p s t : Text) → after_prefix p s ≡ some t → s ≡ p ++ t
append-after_prefix [] s t h = cc
append-after_prefix (c ∷ p) [] t h = cc
append-after_prefix (c ∷ p) (d ∷ s) t h = ground (arith, append-after_prefix p s t)

suffix-IsDidOf : (did : Text) → IsDidOf (did_suffix did) did
unfolding did_suffix
suffix-IsDidOf did = go (after_prefix did_method did) refl
  where
    go : (o : Option Text) → after_prefix did_method did ≡ o → IsDidOf (or_text did o) did
    go (some t) e = is_full (append-after_prefix did_method did t e)
    go none e = is_short refl λ s h.
        let found : after_prefix did_method did ≡ some s =
          ap (after_prefix did_method) h ∙ after_prefix-append did_method s in
        cc

IsDidOf-suffix : {suffix did : Text} → IsDidOf suffix did → did_suffix did ≡ suffix
unfolding did_suffix
IsDidOf-suffix {suffix} {did} (is_full e) =
    ap (or_text did) (ap (after_prefix did_method) e ∙ after_prefix-append did_method suffix)
IsDidOf-suffix {suffix} {did} (is_short e h) = go (after_prefix did_method did) refl
  where
    go : (o : Option Text) → after_prefix did_method did ≡ o → or_text did o ≡ suffix
    go none k = e
    go (some t) k = absurd (h t (append-after_prefix did_method did t k))

-- two DIDs with the same suffix are forms of one
pub same_suffix_iff : (a b : Text) → (text_eq (did_suffix a) (did_suffix b) ≡ true) ↔ AreSameDid a b
same_suffix_iff a b = (there, back)
  where
    there : text_eq (did_suffix a) (did_suffix b) ≡ true → AreSameDid a b
    there h = record {
      suffix = did_suffix a;
      left = suffix-IsDidOf a;
      right = subst (λ (s : Text). IsDidOf s b) (sym ((text_eq_iff _ _).0 h)) (suffix-IsDidOf b);
    }

    back : AreSameDid a b → text_eq (did_suffix a) (did_suffix b) ≡ true
    back d = (text_eq_iff _ _).1 (IsDidOf-suffix d.left ∙ sym (IsDidOf-suffix d.right))

pub is_agent_operator-AreSameDid :
    (did operator : Text) → is_agent_operator did operator ≡ true → AreSameDid did operator
unfolding is_agent_operator
is_agent_operator-AreSameDid [] operator h = cc
is_agent_operator-AreSameDid (c ∷ did) [] h = cc
is_agent_operator-AreSameDid (c ∷ did) (d ∷ operator) h =
    (same_suffix_iff (c ∷ did) (d ∷ operator)).0 h

split_hash-append :
    (did fragment : Text)
    → HasNoHash did
    → split_hash (did ++ (b'#' ∷ fragment)) ≡ some (did, fragment)
unfolding split_hash
split_hash-append [] fragment h = refl
split_hash-append (c ∷ did) fragment h = elim (Bool-cases (c == b'#')) [
  | inl e ↦ absurd (h.0 (ground arith))
  | inr e ↦ rw (e, split_hash-append did fragment h.1) refl
]

-- where the text was split
abbrev IsSplit : Text → Option (Text × Text) → Type 0
IsSplit key none = Unit
IsSplit key (some (did, fragment)) = (key ≡ did ++ (b'#' ∷ fragment)) × HasNoHash did

cons_front-IsSplit :
    (c : ℕ) (s : Text) (o : Option (Text × Text))
    → c ≢ b'#'
    → IsSplit s o
    → IsSplit (c ∷ s) (cons_front c o)
cons_front-IsSplit c s none n h = tt
cons_front-IsSplit c s (some (did, fragment)) n h = (ap (λ (t : Text). c ∷ t) h.0, (n, h.1))

not_hash : (c : ℕ) → c == b'#' ≡ false → c ≢ b'#'
not_hash c e h = ground arith

split_hash-IsSplit : (key : Text) → IsSplit key (split_hash key)
unfolding split_hash
split_hash-IsSplit [] = tt
split_hash-IsSplit (c ∷ s) = elim (Bool-cases (c == b'#')) [
  | inl e ↦ rw e (ap (λ (x : ℕ). x ∷ s) (ground arith), tt)
  | inr e ↦ rw e (cons_front-IsSplit c s (split_hash s) (not_hash c e) (split_hash-IsSplit s))
]

both_true : (a b : Bool) → a && b ≡ true → (a ≡ true) × (b ≡ true)
both_true a b h = ground arith

-- `sameKey` says yes exactly if the two texts name one key.
pub same_key_iff : (a b : Text) → (same_key a b ≡ true) ↔ AreSameKey a b
unfolding same_key
same_key_iff a b =
    (there (split_hash a) (split_hash b) (split_hash-IsSplit a) (split_hash-IsSplit b), back)
  where
    there :
        (x y : Option (Text × Text))
        → IsSplit a x
        → IsSplit b y
        → same_parts x y ≡ true
        → AreSameKey a b
    there none y p q h = cc
    there (some (d, f)) none p q h = cc
    there (some (d, f)) (some (e, g)) p q h =
        let (k, l) = both_true _ _ h in
        let same = (same_suffix_iff d e).0 k in
        let same_fragment : g ≡ f = sym ((text_eq_iff f g).0 l) in
        record {
          suffix = same.suffix;
          fragment = f;
          left = record { did = d; written = p.0; first = p.1; names = same.left };
          right = record {
            did = e;
            written = q.0 ∙ ap (λ (x : Text). e ++ (b'#' ∷ x)) same_fragment;
            first = q.1;
            names = same.right;
          };
        }

    back : AreSameKey a b → same_parts (split_hash a) (split_hash b) ≡ true
    back k =
        let l = k.left in
        let r = k.right in
        let x : split_hash a ≡ some (l.did, k.fragment) =
          ap split_hash l.written ∙ split_hash-append l.did k.fragment l.first in
        let y : split_hash b ≡ some (r.did, k.fragment) =
          ap split_hash r.written ∙ split_hash-append r.did k.fragment r.first in
        let same =
          (same_suffix_iff l.did r.did).1
            (record { suffix = k.suffix; left = l.names; right = r.names }) in
        rw (x, y, same, (text_eq_iff k.fragment k.fragment).1 refl) refl
