-- ===== src/Tests.antt =====
-- Runs of the model on concrete data: a small storage (RediCraft-Server/src/storage.cpp), two times,
-- and the theorems of the other modules applied to them.
mod Texts
mod Collections
mod Lifetimes
mod Files
mod Commands
mod Wire
mod Parts
mod Loops
mod Settings
mod Refinement
mod Interleavings
mod Decoded
mod Unordered
use redi_craft.Prelude.{true, [], ◌∷◌, Bytes, codes}
use redi_craft.Prelude.Int.{pos}
use redi_craft.Storage.{item, Storage, Readings}
use redi_craft.Session.Replies.{Clock}

abbrev pub soon : Readings
soon k = pos 5

abbrev pub later : Readings
later k = pos 9

abbrev pub clock : Clock
clock = record { start = pos 5; at = soon }

abbrev pub key : Bytes
key = codes "k"

abbrev pub other : Bytes
other = codes "j"

-- "k" is in every table, and its text is gone after time 7.
abbrev pub small : Storage
small = record {
  string_data =
      (key, record { value = codes "41"; has_expiry = true; expiry = pos 7 })
      ∷ (other, item (codes "8"))
      ∷ [];
  hash_data = (key, item ((codes "f", codes "1") ∷ [])) ∷ [];
  list_data = (key, item (codes "a" ∷ codes "b" ∷ codes "c" ∷ [])) ∷ [];
  set_data = (key, item ((codes "x", true) ∷ (codes "y", true) ∷ [])) ∷ [];
}
