-- ===== src/TakeoverProcess.antt =====
-- src/takeoverprocess.c and .h: the acknowledgements that a registrar waits for when it takes over
-- the pool elements of another one. A process is the part of PeerIDArray that is in use.
pub mod Acknowledging
mod Tests
use rsplib.Base.{ℕ, List, [], ◌∷◌, Option, none, some, not, ◌&&◌, ◌||◌, ◌==◌, if◌then◌else◌, length}

-- The loop of takeoverProcessNew, over the identifiers of the peer list.
unfoldable pub outstanding : (target own : ℕ) → List ℕ → List ℕ
outstanding target own [] = []
outstanding target own (p ∷ ps) =
    let rest = outstanding target own ps in
    if not (p == target) && not (p == own) && not (p == 0) then p ∷ rest else rest

-- takeoverProcessNew: `none` is a failed CHECK.
unfoldable pub new : (target own : ℕ) → List ℕ → Option (List ℕ)
unfolding outstanding
new target own peers =
    if target == 0 || target == own then none else some (outstanding target own peers)

-- takeoverProcessGetOutstandingAcks
abbrev pub get_outstanding_acks : List ℕ → ℕ
get_outstanding_acks process = length process

-- takeoverProcessAcknowledge: the outer loop finds the first entry of the acknowledger, the inner
-- one moves all that follow it, and leaves the outer one at its end.
unfoldable pub acknowledge : List ℕ → ℕ → List ℕ
acknowledge [] acknowledger = []
acknowledge (p ∷ ps) acknowledger =
    let rest = acknowledge ps acknowledger in if p == acknowledger then ps else p ∷ rest

-- The acknowledgements that arrive, in their order.
abbrev pub acknowledge_all : List ℕ → List ℕ → List ℕ
acknowledge_all process [] = process
acknowledge_all process (a ∷ acks) = acknowledge_all (acknowledge process a) acks
