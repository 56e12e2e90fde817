-- ===== src/Streams/Caps.antt =====
-- The table of open streams of `src/api/stream-caps.ts`. A place that `acquire` answers is a number
-- of the list of all places given so far, where its `released` flag is kept.
use freeagents.Base.{
  ℕ, zero, suc, ◌+◌, ◌-◌, Bool, true, false, List, [], ◌∷◌, ◌++◌, Option, none, some, ◌==◌, leb,
  if◌then◌else◌, length, get_elem?,
}
use freeagents.Base.Text.{Text}
use freeagents.Base.Table.{Table, get, set, delete}

abbrev pub stream_limit_per_target : ℕ
stream_limit_per_target = 3

abbrev pub stream_limit_per_caller : ℕ
stream_limit_per_caller = 10

pub data StreamRefusal : Type 0 where
  target_full caller_full : StreamRefusal

pub record CallerEntry : Type 0 where
  pub total : ℕ
  pub per_target : Table ℕ

-- what the closure of a place's `release` holds
pub record StreamPlace : Type 0 where
  pub caller : Text
  pub target : Text
  pub released : Bool

pub record StreamCaps : Type 0 where
  pub callers : Table CallerEntry
  pub places : List StreamPlace

abbrev pub create_stream_caps : StreamCaps
create_stream_caps = record { callers = []; places = [] }

-- `?? 0`
abbrev pub or_zero : Option ℕ → ℕ
or_zero none = 0
or_zero (some n) = n

-- `?? { total: 0, perTarget: new Map() }`
abbrev pub entry_or_new : Option CallerEntry → CallerEntry
entry_or_new none = record { total = 0; per_target = [] }
entry_or_new (some e) = e

unfoldable pub held_in : Text → CallerEntry → ℕ
unfolding get
held_in target e = or_zero (get target e.per_target)

-- One place of the target less. `total` counts every place held, so it is above zero here.
abbrev pub entry_without : Text → CallerEntry → CallerEntry
entry_without target e =
    let held = held_in target e in
    record {
      total = e.total - 1;
      per_target =
          if held == 1 then delete target e.per_target else set target (held - 1) e.per_target;
    }

-- `entry.total <= 0` deletes the caller
abbrev pub put_back : Text → CallerEntry → Table CallerEntry → Table CallerEntry
put_back caller e callers = if leb e.total 0 then delete caller callers else set caller e callers

abbrev pub give_entry : Text → Text → Table CallerEntry → Option CallerEntry → Table CallerEntry
give_entry caller target callers none = callers
give_entry caller target callers (some e) =
    if leb (held_in target e) 0 then callers else put_back caller (entry_without target e) callers

unfoldable pub give : Text → Text → Table CallerEntry → Table CallerEntry
unfolding held_in get set delete
give caller target callers = give_entry caller target callers (get caller callers)

-- what `acquire` answers: the number of a place, or the cap that refused it
pub data Acquired : Type 0 where
  place : ℕ → Acquired
  refusal : StreamRefusal → Acquired

abbrev pub entry_with : Text → CallerEntry → CallerEntry
entry_with target e = record {
  total = e.total + 1;
  per_target = set target (held_in target e + 1) e.per_target;
}

abbrev pub with_place : Text → Text → CallerEntry → StreamCaps → StreamCaps
with_place caller target e caps = record {
  callers = set caller (entry_with target e) caps.callers;
  places = caps.places ++ (record { caller = caller; target = target; released = false } ∷ []);
}

unfoldable pub acquire : Text → Text → StreamCaps → StreamCaps × Acquired
unfolding held_in get set
acquire caller target caps =
    let e = entry_or_new (get caller caps.callers) in
    if leb stream_limit_per_target (held_in target e)
    then (caps, refusal target_full)
    else if leb stream_limit_per_caller e.total
    then (caps, refusal caller_full)
    else (with_place caller target e caps, place (length caps.places))

abbrev pub mark_released : ℕ → List StreamPlace → List StreamPlace
mark_released n [] = []
mark_released zero (p ∷ ps) = record p { released = true } ∷ ps
mark_released (suc n) (p ∷ ps) = p ∷ mark_released n ps

-- `if (released) return; released = true; give(caller, target)`
abbrev pub release_place : ℕ → StreamCaps → Option StreamPlace → StreamCaps
release_place n caps none = caps
release_place n caps (some p) = if p.released then caps else record {
  callers = give p.caller p.target caps.callers;
  places = mark_released n caps.places;
}

unfoldable pub release : ℕ → StreamCaps → StreamCaps
unfolding give
release n caps = release_place n caps (get_elem? caps.places n)

-- a call on the caps: by a route, or by a connection that closes
pub data StreamCall : Type 0 where
  acquire_call : Text → Text → StreamCall
  release_call : ℕ → StreamCall

abbrev pub perform_stream : StreamCall → StreamCaps → StreamCaps
perform_stream (acquire_call caller target) caps = (acquire caller target caps).0
perform_stream (release_call n) caps = release n caps

unfoldable pub run_streams : List StreamCall → StreamCaps → StreamCaps
unfolding acquire release
run_streams [] caps = caps
run_streams (c ∷ cs) caps = run_streams cs (perform_stream c caps)

-- `holdUntilClosed`: a place whose connection is already gone is given back at once.
unfoldable pub hold_until_closed : ℕ → Bool → StreamCaps → StreamCaps × Bool
unfolding release
hold_until_closed n destroyed caps = if destroyed then (release n caps, false) else (caps, true)
