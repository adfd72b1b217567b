-- ===== src/Tests/Collections.antt =====
-- The theorems on hashes, lists, sets and reads (RediCraft-Server/src/storage.cpp) at concrete inputs.
use redi_craft.Prelude.{◌+◌, ◌≤◌, ltb, ◌≡◌, refl, true, some, List, [], ◌∷◌, Bytes, codes, bytes_eq}
use redi_craft.Prelude.Int.{pos, negsuc}
use redi_craft.Table.{find, assign}
use redi_craft.Storage.{Readings, has_expired, purge, remove_expired}
use redi_craft.Storage.View.{live, value_at}
use redi_craft.Storage.Hashes.{hset, hgetall}
use redi_craft.Storage.Hashes.Laws.{hgetall-hset}
use redi_craft.Storage.Lists.{lpush, lrange}
use redi_craft.Storage.Lists.Laws.{values_at, lpush_lem}
use redi_craft.Storage.Lists.Range.{index, lrange_slice}
use redi_craft.Storage.Sets.{sadd, scard, srem, sismember, sadd_found, fresh_members}
use redi_craft.Storage.Sets.Laws.{listed, members_at}
use redi_craft.Storage.Sets.Counts.{repeats, sadd_repeats, sismember-sadd, scard-srem}
use redi_craft.Storage.Lists.Queue.{
  QueueCall, HoldsQueue, list_answers, queue_answers, call_queue, queue_refines, enqueue, dequeue,
  size, value,
}
use redi_craft.Tests.{soon, later, key, other, small}

hgetall-hset_example :
    (hgetall later key (hset soon key (codes "g") (codes "2") small).1).0
    ≡ (codes "f", codes "1") ∷ (codes "g", codes "2") ∷ []
unfolding live find bytes_eq has_expired assign hgetall remove_expired purge
hgetall-hset_example = hgetall-hset soon later key (codes "g") (codes "2") key small refl

lpush_lem_example :
    ((lpush soon key (codes "p" ∷ codes "q" ∷ []) small).0 ≡ 5)
    × (values_at (pos 9) key (lpush soon key (codes "p" ∷ codes "q" ∷ []) small).1
        ≡ codes "p" ∷ codes "q" ∷ codes "a" ∷ codes "b" ∷ codes "c" ∷ [])
unfolding live find bytes_eq has_expired values_at value_at
lpush_lem_example = lpush_lem soon key small (pos 9) (codes "p" ∷ codes "q" ∷ []) refl

-- a list in which "c" came first
abbrev waiting : List Bytes
waiting = codes "c" ∷ codes "b" ∷ codes "a" ∷ []

abbrev queue_calls : List (Readings × QueueCall)
queue_calls = (soon, enqueue (codes "x" ∷ codes "y" ∷ [])) ∷ (later, dequeue) ∷ []

small-HoldsQueue : HoldsQueue key waiting small
unfolding find bytes_eq
small-HoldsQueue = (refl, refl)

queue_refines_example : list_answers key queue_calls small ≡ size 5 ∷ value (some (codes "c")) ∷ []
unfolding queue_answers call_queue
queue_refines_example = queue_refines key queue_calls waiting small small-HoldsQueue

lrange_slice_example : (lrange soon key (pos 1) (negsuc 0) small).0 ≡ codes "b" ∷ codes "c" ∷ []
unfolding live find bytes_eq has_expired values_at value_at index
lrange_slice_example = lrange_slice soon key small (pos 1) (negsuc 0) (λ e. cc e)

sadd_repeats_example :
    ((sadd soon other (codes "a" ∷ codes "b" ∷ codes "b" ∷ []) small).0 ≡ 3)
    × ((scard later other (sadd soon other (codes "a" ∷ codes "b" ∷ codes "b" ∷ []) small).1).0 ≤ 3)
    × (ltb
          (scard later other (sadd soon other (codes "a" ∷ codes "b" ∷ codes "b" ∷ []) small).1).0
          3
        ≡ true)
unfolding live find bytes_eq value_at repeats listed sadd remove_expired purge sadd_found
    fresh_members assign
sadd_repeats_example =
    sadd_repeats soon other small later (codes "a" ∷ codes "b" ∷ codes "b" ∷ []) refl

sismember-sadd_example :
    (sismember later key (codes "z") (sadd soon key (codes "z" ∷ []) small).1).0 ≡ true
unfolding live find bytes_eq has_expired listed
sismember-sadd_example = sismember-sadd soon key small later (codes "z" ∷ []) key (codes "z") refl

scard-srem_example :
    (srem soon key (codes "y" ∷ codes "z" ∷ []) small).0
      + (scard later key (srem soon key (codes "y" ∷ codes "z" ∷ []) small).1).0
    ≡ (scard soon key small).0
unfolding live find bytes_eq has_expired members_at value_at
scard-srem_example =
    scard-srem soon key small later (codes "y" ∷ codes "z" ∷ []) refl (refl, (refl, tt))
