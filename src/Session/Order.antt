-- ===== src/Session/Order.antt =====
-- handle_command (RediCraft-Server/src/session.cpp) on storages that hold the same items in another
-- order of the maps' entries.
use redi_craft.Prelude.{
  refl, ap, Bool, Option, none, some, List, if◌then◌else◌, if_alike, drop, Bytes, codes,
}
use redi_craft.Prelude.Int.{ℤ, pos}
use redi_craft.Number.{stoll}
use redi_craft.Parser.{
  CommandType, at, parse, ping, set, get, incr, decr, incrby, hset, hget, hgetall, lpush, rpop,
  lrange, expire, ttl, sadd, smembers, srem, sismember, scard, unknown,
}
use redi_craft.Storage.{Storage}
use redi_craft.Storage.Order.{SameItems, Alike}
use redi_craft.Storage.Order.Methods.{
  set-Alike, get-Alike, incrby-Alike, incr-Alike, decr-Alike, hset-Alike, hget-Alike, hgetall-Alike,
  lpush-Alike, rpop-Alike, lrange-Alike, sadd-Alike, srem-Alike, sismember-Alike, smembers-Alike,
  scard-Alike,
}
use redi_craft.Storage.Order.Expiries.{expire-Alike, ttl-Alike}
use redi_craft.Session.Replies.{
  Clock, line, number, value_or_nil, flag, fields_text, values_text, members_text,
}
use redi_craft.Session.{respond, handle_command}

answer :
    {R : Type 0} {p q : R × Storage} (reply : R → Bytes)
    → Alike p q
    → Alike (reply p.0, p.1) (reply q.0, q.1)
answer reply h = (ap reply h.0, h.1)

gate :
    (b : Bool) {x x' y y' : Bytes × Storage}
    → Alike x x'
    → Alike y y'
    → Alike (if b then x else y) (if b then x' else y')
gate b h k = if_alike Alike b _ _ _ _ h k

parsed :
    (o : Option ℤ) {x x' : Bytes × Storage} {g g' : ℤ → Bytes × Storage}
    → Alike x x'
    → ((n : ℤ) → Alike (g n) (g' n))
    → Alike
        (elim o as (λ _. Bytes × Storage) [ none ↦ x | some n ↦ g n ])
        (elim o as (λ _. Bytes × Storage) [ none ↦ x' | some n ↦ g' n ])
parsed none h k = h
parsed (some n) h k = k n

module _ (c : Clock) (args : List Bytes) (s t : Storage) (h : SameItems s t) where
  refused : (text : Bytes) → Alike (text, s) (text, t)
  refused text = (refl, h)

  respond-Alike : (type : CommandType) → Alike (respond c type args s) (respond c type args t)
  unfolding respond
  respond-Alike ping = refused _
  respond-Alike unknown = refused _
  respond-Alike set =
      gate _ (answer (λ _. line (codes "OK")) (set-Alike c.at (at args 0) s t h (at args 1)))
        (refused _)
  respond-Alike get = gate _ (answer value_or_nil (get-Alike c.at (at args 0) s t h)) (refused _)
  respond-Alike incr = gate _ (answer number (incr-Alike c.at (at args 0) s t h)) (refused _)
  respond-Alike decr = gate _ (answer number (decr-Alike c.at (at args 0) s t h)) (refused _)
  respond-Alike incrby =
      gate _
        (parsed (stoll (at args 1)) (refused _)
          (λ n. answer number (incrby-Alike c.at (at args 0) s t h n)))
        (refused _)
  respond-Alike hset =
      gate _
        (answer (λ _. line (codes "OK"))
          (hset-Alike c.at (at args 0) s t h (at args 1) (at args 2)))
        (refused _)
  respond-Alike hget =
      gate _ (answer value_or_nil (hget-Alike c.at (at args 0) s t h (at args 1))) (refused _)
  respond-Alike hgetall =
      gate _ (answer fields_text (hgetall-Alike c.at (at args 0) s t h)) (refused _)
  respond-Alike lpush =
      gate _ (answer (λ n. number (pos n)) (lpush-Alike c.at (at args 0) s t h (drop 1 args)))
        (refused _)
  respond-Alike rpop = gate _ (answer value_or_nil (rpop-Alike c.at (at args 0) s t h)) (refused _)
  respond-Alike lrange =
      gate _
        (parsed (stoll (at args 1)) (refused _) (λ i.
          parsed (stoll (at args 2)) (refused _)
            (λ j. answer values_text (lrange-Alike c.at (at args 0) s t h i j))))
        (refused _)
  respond-Alike sadd =
      gate _ (answer (λ n. number (pos n)) (sadd-Alike c.at (at args 0) s t h (drop 1 args)))
        (refused _)
  respond-Alike smembers =
      gate _ (answer members_text (smembers-Alike c.at (at args 0) s t h)) (refused _)
  respond-Alike srem =
      gate _ (answer (λ n. number (pos n)) (srem-Alike c.at (at args 0) s t h (drop 1 args)))
        (refused _)
  respond-Alike sismember =
      gate _ (answer flag (sismember-Alike c.at (at args 0) s t h (at args 1))) (refused _)
  respond-Alike scard =
      gate _ (answer (λ n. number (pos n)) (scard-Alike c.at (at args 0) s t h)) (refused _)
  respond-Alike expire =
      gate _
        (parsed (stoll (at args 1)) (refused _)
          (λ n. answer flag (expire-Alike s t h c.start (at args 0) n)))
        (refused _)
  respond-Alike ttl = gate _ (answer number (ttl-Alike s t h c.start c.at (at args 0))) (refused _)

-- Two storages that hold the same item at every key of every kind, in whatever order: a text that a
-- client sends gets the same answer from both, and leaves them so.
pub handle_command-Alike :
    (c : Clock) (text : Bytes) (s t : Storage)
    → SameItems s t
    → Alike (handle_command c text s) (handle_command c text t)
unfolding handle_command
handle_command-Alike c text s t h = let cmd = parse text in respond-Alike c cmd.args s t h cmd.type
