-- ===== src/Storage/Invariant/Members.antt =====
-- The loops of sadd and srem (RediCraft-Server/src/storage.cpp) and what the sets hold.
use redi_craft.Prelude.{ℕ, ◌+◌, ◌≢◌, Bool, true, List, [], ◌∷◌, arith, if_both, All, Bytes}
use redi_craft.Table.{Table, find, assign, erase, is_some}
use redi_craft.Table.Laws.{assign-IsTable, erase-IsTable, assign-Entries, erase-Entries}
use redi_craft.Storage.Sets.{add_members, fresh_members, remove_members}
use redi_craft.Storage.Invariant.{IsMembersOf, IsFilledOf}

assign-ne-nil {ℓ} : {V : Type ℓ} (k : Bytes) (v : V) (m : Table V) → assign k v m ≢ []
unfolding assign
assign-ne-nil k v [] = cc
assign-ne-nil k v ((j, w) ∷ m) = ground arith

module _ (Q : Bytes → Type 0) where
  add_member : (x : Bytes) (m : Table Bool) → Q x → IsMembersOf Q m → IsFilledOf Q (assign x true m)
  add_member x m q (t, h) =
      ((assign-IsTable x true m t, assign-Entries _ x true m q h), assign-ne-nil x true m)

  pub add_members-IsFilledOf :
      (ms : List Bytes) (m : Table Bool) (n : ℕ)
      → All Q ms
      → IsFilledOf Q m
      → IsFilledOf Q (add_members ms m n).0
  unfolding add_members
  add_members-IsFilledOf [] m n q h = h
  add_members-IsFilledOf (x ∷ ms) m n (qx, q) h = add_members-IsFilledOf ms _ _ q (
      if_both (IsFilledOf Q) (is_some (find x m)) m (assign x true m) (λ _. h)
        (add_member x m qx h.0))

  fresh_members-IsFilledOf :
      (ms : List Bytes) (m : Table Bool) (n : ℕ)
      → All Q ms
      → IsFilledOf Q m
      → IsFilledOf Q (fresh_members ms m n).0
  unfolding fresh_members
  fresh_members-IsFilledOf [] m n q h = h
  fresh_members-IsFilledOf (x ∷ ms) m n (qx, q) h =
      fresh_members-IsFilledOf ms (assign x true m) (n + 1) q (add_member x m qx h.0)

  pub new_members-IsFilledOf :
      (x : Bytes) (ms : List Bytes) → All Q (x ∷ ms) → IsFilledOf Q (fresh_members (x ∷ ms) [] 0).0
  unfolding fresh_members
  new_members-IsFilledOf x ms (qx, q) =
      fresh_members-IsFilledOf ms (assign x true []) _ q (add_member x [] qx (tt, tt))

  pub remove_members-IsMembersOf :
      (ms : List Bytes) (m : Table Bool) (n : ℕ)
      → IsMembersOf Q m
      → IsMembersOf Q (remove_members ms m n).0
  unfolding remove_members
  remove_members-IsMembersOf [] m n h = h
  remove_members-IsMembersOf (x ∷ ms) m n (t, h) =
      remove_members-IsMembersOf ms (erase x m) _ (erase-IsTable x m t, erase-Entries _ x m h)
