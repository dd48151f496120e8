-- ===== src/TimeStampHashTable.antt =====
-- src/timestamphashtable.c and .h: the latest time stamps of the requests, by the hash value of the
-- requester. A bucket is the part of TimeStamp that is in use; Entries is its length.
pub mod Window
mod Tests
use rsplib.Base.{
  ℕ, ◌+◌, ◌%◌, List, [], ◌∷◌, ◌++◌, Option, none, some, Bool, true, false, ◌||◌, ltb, leb,
  if◌then◌else◌, length, get_or, set, drop, replicate, zero, suc, ◌-◌,
}

pub record TimeStampHashTable : Type 0 where
  pub max_entries : ℕ
  pub buckets : List (List ℕ)

-- timeStampHashTableClear
unfoldable pub clear : TimeStampHashTable → TimeStampHashTable
clear t = record t { buckets = replicate (length t.buckets) [] }

-- timeStampHashTableNew, when malloc succeeds
unfoldable pub new : (buckets max_entries : ℕ) → Option TimeStampHashTable
new buckets max_entries =
    if ltb buckets 1 || ltb max_entries 1
    then none
    else some (record { max_entries = max_entries; buckets = replicate buckets [] })

-- The test `TimeStamp[Entries - 1] <= newTimeStamp`, true also of an empty bucket.
unfoldable pub last_le : List ℕ → ℕ → Bool
last_le [] t = true
last_le (x ∷ []) t = leb x t
last_le (x ∷ y ∷ ys) t = last_le (y ∷ ys) t

-- timeStampHashTableAddTimeStamp on its bucket: `none` is the result false, which leaves the table
-- as it is. A full bucket loses its first entry.
unfoldable pub append : ℕ → List ℕ → ℕ → Option (List ℕ)
unfolding last_le
append max_entries bucket t =
    if ltb (length bucket) max_entries
    then (if last_le bucket t then some (bucket ++ t ∷ []) else none)
    else (if last_le bucket t then some (drop 1 bucket ++ t ∷ []) else none)

unfoldable pub add_time_stamp : TimeStampHashTable → (hash t : ℕ) → Bool × TimeStampHashTable
unfolding append
add_time_stamp table hash t =
    let i = hash % length table.buckets in
    elim (append table.max_entries (get_or table.buckets i []) t) [
      | none ↦ (false, table)
      | some b ↦ (true, record table { buckets = set table.buckets i b })
    ]
