-- ===== src/Streams/Examples.antt =====
-- The theorems on `src/api/stream-caps.ts` applied to two callers.
use freeagents.Base.{◌<◌, ◌≡◌, ◌↔◌, count, length, List, [], ◌∷◌, refl}
use freeagents.Base.Text.{Text, codes}
use freeagents.Streams.Caps.{
  StreamCaps, StreamCall, acquire_call, release_call, create_stream_caps, run_streams, acquire,
  place, refusal, target_full,
}
use freeagents.Streams.Counted.{IsCounted, open_of, open_on}
use freeagents.Streams.Released.{run_streams-IsCounted}
use freeagents.Streams.Places.{acquire_iff}

abbrev ann : Text
ann = codes "did:abt:ann"

abbrev bob : Text
bob = codes "did:abt:bob"

abbrev thread : Text
thread = codes "thread:1"

-- three tabs on one thread, one of them closed twice
abbrev calls : List StreamCall
calls =
    acquire_call ann thread
    ∷ acquire_call ann thread
    ∷ acquire_call bob thread
    ∷ acquire_call ann thread
    ∷ release_call 1
    ∷ release_call 1
    ∷ []

abbrev caps : StreamCaps
caps = run_streams calls create_stream_caps

again_test : (acquire ann thread caps).1 ≡ place 4
unfolding run_streams acquire
again_test = refl

full_test :
    (acquire ann thread (run_streams (acquire_call ann thread ∷ []) caps)).1 ≡ refusal target_full
unfolding run_streams acquire
full_test = refl

run_streams-IsCounted_example : IsCounted (run_streams calls create_stream_caps)
run_streams-IsCounted_example = run_streams-IsCounted calls

acquire_iff_example :
    ((acquire bob thread caps).1 ≡ place (length caps.places))
    ↔ ((count (open_on bob thread) caps.places < 3) × (count (open_of bob) caps.places < 10))
acquire_iff_example = acquire_iff bob thread caps (run_streams-IsCounted calls)
