-- ===== src/Storage/Locks/Faults.antt =====
-- Which methods of Storage (RediCraft-Server/src/storage.cpp) keep the rules of std::shared_mutex.
use redi_craft.Prelude.{
  ◌≡◌, refl, ◌≢◌, ◌↔◌, Bool, true, false, not, ◌&&◌, Option, none, some, arith, if◌then◌else◌,
}
use redi_craft.Storage.{Kind, strings, hashes, lists, sets}
use redi_craft.Storage.Locks.{
  Owned, nothing_owned, run, remove_expired_calls, Method, method_calls, expire_calls, ttl_calls,
  all_kinds, set,
}
use redi_craft.Table.{is_some}

-- The sequence of mutex calls of every method that guards its body and calls remove_expired breaks
-- the rules of std::shared_mutex in a thread that owns no mutex before, whatever has expired: it locks
-- a mutex that the thread owns, or releases one in a mode in which the thread does not own it.
pub method_calls_fault :
    (method : Method) (expired : Kind → Bool)
    → run (method_calls method expired) nothing_owned ≡ none
unfolding run method_calls
method_calls_fault set expired = refl
method_calls_fault m expired = ground arith

-- remove_expired by itself keeps the rules exactly if nothing has expired: the erasing branch
-- releases a shared lock as an exclusive one.
remove_expired_calls_iff :
    (expired : Kind → Bool)
    → (run (remove_expired_calls expired) nothing_owned ≢ none) ↔ (
        (expired strings ≡ false)
        × (expired hashes ≡ false)
        × (expired lists ≡ false)
        × (expired sets ≡ false))
unfolding run remove_expired_calls
remove_expired_calls_iff expired = (λ h. ground arith, λ h. ground arith)

-- The calls kept the rules, and the thread owns nothing at their end.
abbrev pub is_idle : Option Owned → Bool
is_idle none = false
is_idle (some owned) =
    not (is_some (owned strings))
    && not (is_some (owned hashes))
    && not (is_some (owned lists))
    && not (is_some (owned sets))

-- In a thread that owns no mutex before, EXPIRE keeps the rules and releases all that it locks; TTL
-- does so exactly if the item that it finds, if any, has not expired.
pub expire_ttl_calls :
    (found expired : Kind → Bool)
    → (is_idle (run (expire_calls found all_kinds) nothing_owned) ≡ true)
      × (is_idle (run (ttl_calls found expired all_kinds) nothing_owned) ≡ (
          if found strings
          then not (expired strings)
          else if found hashes
          then not (expired hashes)
          else if found lists
          then not (expired lists)
          else not (found sets && expired sets)))
unfolding run expire_calls ttl_calls
expire_ttl_calls found expired = (ground arith, ground arith)
