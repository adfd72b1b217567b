-- ===== src/Tests/Interleavings.antt =====
-- The theorems on the threads of EXPIRE and TTL (RediCraft-Server/src/storage.cpp) at a concrete
-- run.
use redi_craft.Prelude.{refl, ◌⊎◌, true, some, List, [], ◌∷◌}
use redi_craft.Storage.{strings}
use redi_craft.Storage.Locks.{nothing_owned, own, call, exclusive, acquire, release}
use redi_craft.Storage.Locks.Threads.{
  Thread, Job, start_thread, Step, IsFinished, expiring, timing, turn, here, next,
}
use redi_craft.Storage.Locks.Guards.{threads}
use redi_craft.Storage.Locks.Liveness.{Reach-progress}

abbrev jobs : List Job
jobs = expiring (λ k. true) ∷ timing (λ k. true) ∷ []

-- EXPIRE has locked the texts, and TTL waits for it.
abbrev one_locked : List Thread
one_locked =
    record {
      owned = own strings (some exclusive) nothing_owned;
      calls = release exclusive strings ∷ [];
    }
    ∷ start_thread (timing (λ k. true))
    ∷ []

first_step : Step (threads jobs) one_locked
unfolding start_thread call
first_step =
    turn [] (start_thread (timing (λ k. true)) ∷ []) (start_thread (expiring (λ k. true)))
      (acquire exclusive strings) (release exclusive strings ∷ [])
      (own strings (some exclusive) nothing_owned) refl refl (refl, tt)

Reach-progress_example : IsFinished one_locked ⊎ ((us : List Thread) × Step one_locked us)
Reach-progress_example = Reach-progress jobs one_locked (next here first_step)
