-- ===== src/Storage/Lists/Queue.antt =====
-- lpush and rpop of one key (RediCraft-Server/src/storage.cpp) against a queue.
use mathlib.Core.List.{concat-ne-nil, reverse, reverse-append, reverse-reverse, reverse-cons}
use mathlib.Core.Path.{subst}
use redi_craft.Prelude.{
  ℕ, ◌≡◌, refl, sym, ap, ◌∙◌, false, Option, none, some, List, [], ◌∷◌, ◌++◌, append-nil, arith,
  length, length-append, Bytes,
}
use redi_craft.Prelude.Int.{ℤ}
use redi_craft.Table.{find}
use redi_craft.Table.Laws.{find_assigned}
use redi_craft.Storage.{Item, item, Storage, Readings, has_expired, remove_expired, lists}
use redi_craft.Storage.View.{live, find-purge_self}
use redi_craft.Storage.Lists.{put, lpush_found, lpush, back, pop_back, rpop_from, rpop_found, rpop}
use redi_craft.Storage.Lists.Laws.{pop_back-concat, back-concat}

pub data QueueCall : Type 0 where
  enqueue : List Bytes → QueueCall
  dequeue : QueueCall

pub data QueueAnswer : Type 0 where
  size : ℕ → QueueAnswer
  value : Option Bytes → QueueAnswer

length-reverse : (xs : List Bytes) → length (reverse xs) ≡ length xs
length-reverse [] = refl
length-reverse (x ∷ xs) =
    ap length (reverse-cons x xs)
    ∙ omega (arith, length-append (reverse xs) (x ∷ []), length-reverse xs)

-- the call, on a list of the storage
unfoldable pub call_list : Readings → Bytes → QueueCall → Storage → QueueAnswer × Storage
call_list now k (enqueue values) s = let (n, s') = lpush now k values s in (size n, s')
call_list now k dequeue s = let (r, s') = rpop now k s in (value r, s')

-- The call, on a queue with its head first: of several values, the last one joins the queue first.
unfoldable pub call_queue : QueueCall → List Bytes → QueueAnswer × List Bytes
call_queue (enqueue values) q = let q' = q ++ reverse values in (size (length q'), q')
call_queue dequeue [] = (value none, [])
call_queue dequeue (x ∷ q) = (value (some x), q)

unfoldable pub list_answers : Bytes → List (Readings × QueueCall) → Storage → List QueueAnswer
list_answers k [] s = []
list_answers k ((now, c) ∷ rest) s = let (r, s') = call_list now k c s in r ∷ list_answers k rest s'

unfoldable pub queue_answers : List (Readings × QueueCall) → List Bytes → List QueueAnswer
queue_answers [] q = []
queue_answers ((now, c) ∷ rest) q = let (r, q') = call_queue c q in r ∷ queue_answers rest q'

-- the values of the item, which has no deadline; no item has none
abbrev HasValues : Option (Item (List Bytes)) → List Bytes → Type 0
HasValues none values = values ≡ []
HasValues (some it) values = (it.has_expiry ≡ false) × (it.value ≡ values)

-- The list of the key, with no deadline, holds the queue, its head last.
abbrev pub HoldsQueue : Bytes → List Bytes → Storage → Type 0
HoldsQueue k q s = HasValues (find k s.list_data) (reverse q)

live-HasValues :
    (now : ℤ) (o : Option (Item (List Bytes))) (values : List Bytes)
    → HasValues o values
    → live now o ≡ o
unfolding live has_expired
live-HasValues now none values h = refl
live-HasValues now (some it) values h = ground arith

-- Cleaning up leaves such a list alone.
left :
    (now : Readings) (k : Bytes) (q : List Bytes) (s : Storage)
    → HoldsQueue k q s
    → HoldsQueue k q (remove_expired now k s)
unfolding remove_expired
left now k q s h =
    let same =
      find-purge_self (now lists) k s.list_data
      ∙ live-HasValues (now lists) (find k s.list_data) (reverse q) h in
    subst (λ o. HasValues o (reverse q)) (sym same) h

put-HasValues :
    (k : Bytes) (it : Item (List Bytes)) (s : Storage) (values : List Bytes)
    → it.has_expiry ≡ false
    → it.value ≡ values
    → HasValues (find k (put k it s).list_data) values
unfolding put
put-HasValues k it s values h e =
    subst (λ o. HasValues o values) (sym (find_assigned k it s.list_data)) (h, e)

lpush_found-HasValues :
    (k : Bytes) (values held : List Bytes) (o : Option (Item (List Bytes))) (s : Storage)
    → HasValues o held
    → ((lpush_found k values o s).0 ≡ length (values ++ held))
      × HasValues (find k (lpush_found k values o s).1.list_data) (values ++ held)
unfolding lpush_found
lpush_found-HasValues k values held none s h =
    let e : values ≡ values ++ held = sym (append-nil values) ∙ ap (λ t. values ++ t) (sym h) in
    (ap length e, put-HasValues k (item values) s (values ++ held) refl e)
lpush_found-HasValues k values held (some it) s (lasting, e) =
    let e' = ap (λ t. values ++ t) e in
    (ap length e', put-HasValues k _ s (values ++ held) lasting e')

rpop_from-HasValues :
    (k x : Bytes) (q : List Bytes) (it : Item (List Bytes)) (values : List Bytes) (s : Storage)
    → it.has_expiry ≡ false
    → values ≡ reverse (x ∷ q)
    → ((rpop_from k it values s).0 ≡ some x) × HoldsQueue k q (rpop_from k it values s).1
unfolding rpop_from back
rpop_from-HasValues k x q it [] s lasting e =
    absurd (concat-ne-nil x (reverse q) (sym (e ∙ reverse-cons x q)))
rpop_from-HasValues k x q it (y ∷ ys) s lasting e =
    let e' = e ∙ reverse-cons x q in
    (
      ap some (ap (back y) e' ∙ back-concat y (reverse q) x),
      put-HasValues k _ s (reverse q) lasting (ap pop_back e' ∙ pop_back-concat (reverse q) x),
    )

rpop_found-HasValues :
    (k x : Bytes) (q : List Bytes) (o : Option (Item (List Bytes))) (s : Storage)
    → HasValues o (reverse (x ∷ q))
    → ((rpop_found k o s).0 ≡ some x) × HoldsQueue k q (rpop_found k o s).1
unfolding rpop_found
rpop_found-HasValues k x q none s h =
    absurd (concat-ne-nil x (reverse q) (sym (reverse-cons x q) ∙ h))
rpop_found-HasValues k x q (some it) s (lasting, e) =
    rpop_from-HasValues k x q it it.value s lasting e

rpop_found-empty :
    (k : Bytes) (o : Option (Item (List Bytes))) (s : Storage)
    → HasValues o []
    → (rpop_found k o s ≡ (none, s))
unfolding rpop_found rpop_from
rpop_found-empty k none s h = refl
rpop_found-empty k (some it) s (lasting, e) = rw (e, rpop_from) refl

-- A call on the list is the call on the queue that it holds.
call_refines :
    (now : Readings) (k : Bytes) (c : QueueCall) (q : List Bytes) (s : Storage)
    → HoldsQueue k q s
    → ((call_list now k c s).0 ≡ (call_queue c q).0)
      × HoldsQueue k (call_queue c q).1 (call_list now k c s).1
unfolding call_list call_queue lpush rpop
call_refines now k (enqueue values) q s h =
    let s' = remove_expired now k s in
    let joined : reverse (q ++ reverse values) ≡ values ++ reverse q =
      reverse-append q (reverse values) ∙ ap (λ t. t ++ reverse q) (reverse-reverse values) in
    let (n, held) =
      lpush_found-HasValues k values (reverse q) (find k s'.list_data) s' (left now k q s h) in
    (
      ap size (n ∙ ap length (sym joined) ∙ length-reverse (q ++ reverse values)),
      subst (HasValues _) (sym joined) held,
    )
call_refines now k dequeue [] s h =
    let s' = remove_expired now k s in
    let h' = left now k [] s h in
    let same = rpop_found-empty k (find k s'.list_data) s' h' in rw same (refl, h')
call_refines now k dequeue (x ∷ q) s h =
    let s' = remove_expired now k s in
    let (r, held) = rpop_found-HasValues k x q (find k s'.list_data) s' (left now k (x ∷ q) s h) in
    (ap value r, held)

-- A key whose list has no deadline, or that has no list, is a queue: whatever the sequence of LPUSH and
-- RPOP calls to it, and whatever the clock, their answers are those of a first-in first-out queue. The
-- values of one LPUSH join the queue from the last to the first, and an LPUSH returns the length of the
-- queue.
pub queue_refines :
    (k : Bytes) (calls : List (Readings × QueueCall)) (q : List Bytes) (s : Storage)
    → HoldsQueue k q s
    → list_answers k calls s ≡ queue_answers calls q
unfolding list_answers queue_answers
queue_refines k [] q s h = refl
queue_refines k ((now, c) ∷ rest) q s h =
    let (same, held) = call_refines now k c q s h in
    cc (same, queue_refines k rest (call_queue c q).1 (call_list now k c s).1 held)
