-- ===== src/Tests/Lifetimes.antt =====
-- The theorems on expiry and on the locks (RediCraft-Server/src/storage.cpp) at concrete inputs.
use redi_craft.Prelude.{◌≡◌, refl, Bool, true, false, none, some, arith, Bytes, codes, bytes_eq}
use redi_craft.Prelude.Int.{◌+ℤ◌, scale, pos}
use redi_craft.Table.{find}
use redi_craft.Storage.{Item, Kind, strings}
use redi_craft.Storage.Strings.{get}
use redi_craft.Storage.Expiry.{expire, ttl}
use redi_craft.Storage.Expiry.Laws.{get-expire, ttl-expire}
use redi_craft.Storage.Locks.{
  nothing_owned, run, method_calls, hset, expire_calls, ttl_calls, all_kinds,
}
use redi_craft.Storage.Locks.Faults.{is_idle, method_calls_fault, expire_ttl_calls}
use redi_craft.Tests.{later, key, small}

-- the text of small's "k", which has an expiry
abbrev text : Item Bytes
text = record { value = codes "41"; has_expiry = true; expiry = pos 7 }

get-expire_example : (get later key (expire (pos 8) key (pos 1) small).1).0 ≡ some (codes "41")
unfolding find bytes_eq scale ◌+ℤ◌
get-expire_example = get-expire (pos 8) later key (pos 1) small text refl (omega arith, omega arith)

ttl-expire_example : (ttl (pos 9) later key (expire (pos 8) key (pos 1) small).1).0 ≡ pos 0
unfolding find bytes_eq
ttl-expire_example = ttl-expire 8 9 9 later key 0 small text refl (omega arith) refl (omega arith)

abbrev texts_expired : Kind → Bool
texts_expired strings = true
texts_expired _ = false

method_calls_fault_example : run (method_calls hset texts_expired) nothing_owned ≡ none
method_calls_fault_example = method_calls_fault hset texts_expired

expire_ttl_calls_example :
    (is_idle (run (expire_calls texts_expired all_kinds) nothing_owned) ≡ true)
    × (is_idle (run (ttl_calls texts_expired texts_expired all_kinds) nothing_owned) ≡ false)
expire_ttl_calls_example = expire_ttl_calls texts_expired texts_expired
