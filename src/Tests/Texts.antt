-- ===== src/Tests/Texts.antt =====
-- The theorems on texts and counters (RediCraft-Server/src/storage.cpp) at concrete inputs.
use redi_craft.Prelude.{◌≡◌, refl, some, arith, bytes_eq}
use redi_craft.Prelude.Int.{◌+ℤ◌, wrap64, pos}
use redi_craft.Table.{find}
use redi_craft.Number.{to_string, stoll}
use redi_craft.Storage.{has_expired, purge, remove_expired}
use redi_craft.Storage.View.{live}
use redi_craft.Storage.Strings.{get, incrby}
use redi_craft.Storage.Strings.Counters.{incrby_lem}
use redi_craft.Tests.{soon, later, other, small}

incrby_lem_example :
    ((incrby soon other (pos 4) small).0 ≡ pos 12)
    × ((get later other (incrby soon other (pos 4) small).1).0
        ≡ some (to_string (incrby soon other (pos 4) small).0))
unfolding live find bytes_eq has_expired get remove_expired purge stoll wrap64 ◌+ℤ◌
incrby_lem_example = incrby_lem soon later other (pos 4) small (omega arith, omega arith) refl
