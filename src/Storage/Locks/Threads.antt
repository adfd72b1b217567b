-- ===== src/Storage/Locks/Threads.antt =====
-- Several threads on the mutexes of Storage (RediCraft-Server/src/storage.cpp), each with the lock
-- calls of an EXPIRE, or of a TTL of an item that has not expired. A step is the next call of any
-- one thread that the mutex lets through: a lock in exclusive mode waits for every other owner, a
-- shared one for an exclusive owner.
use redi_craft.Prelude.{◌≡◌, Bool, true, false, Option, none, some, List, [], ◌∷◌, ◌++◌, All}
use redi_craft.Storage.{Kind}
use redi_craft.Storage.Locks.{
  Mode, Call, Owned, nothing_owned, call, expire_calls, ttl_calls, all_kinds, exclusive, shared,
  acquire, release,
}

pub record Thread : Type 0 where
  pub owned : Owned
  pub calls : List Call

-- a call that a session's thread makes, by the tables that have the key
pub data Job : Type 0 where
  expiring timing : (Kind → Bool) → Job

unfoldable pub start_thread : Job → Thread
unfolding expire_calls ttl_calls
start_thread (expiring found) = record {
  owned = nothing_owned;
  calls = expire_calls found all_kinds;
}
start_thread (timing found) = record {
  owned = nothing_owned;
  calls = ttl_calls found (λ k. false) all_kinds;
}

-- whether two threads may own a mutex so at the same time
abbrev pub compatible : Option Mode → Option Mode → Bool
compatible none o = true
compatible (some m) none = true
compatible (some shared) (some shared) = true
compatible (some shared) (some exclusive) = false
compatible (some exclusive) (some m) = false

-- The mutex lets the call through, by what the other threads own.
abbrev pub IsAllowed : Call → List Thread → Type 0
IsAllowed (acquire m k) others = All (λ u. compatible (some m) (u.owned k) ≡ true) others
IsAllowed (release m k) others = Unit

pub data Step : List Thread → List Thread → Type 0 where
  turn :
      (before after : List Thread) (t : Thread) (c : Call) (rest : List Call) (owned : Owned)
      → t.calls ≡ c ∷ rest
      → call c t.owned ≡ some owned
      → IsAllowed c (before ++ after)
      → Step (before ++ t ∷ after) (before ++ record { owned = owned; calls = rest } ∷ after)

pub data Reach (ts : List Thread) : List Thread → Type 0 where
  here : Reach ts ts
  next : {us vs : List Thread} → Reach ts us → Step us vs → Reach ts vs

abbrev pub IsFinished : List Thread → Type 0
IsFinished = All (λ t. t.calls ≡ [])
