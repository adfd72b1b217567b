-- ===== src/Spec/Respond.antt =====
-- The switch of Session::handle_command (RediCraft-Server/src/session.cpp) answers alike over a
-- storage and over a store that shows the same items.
use redi_craft.Prelude.{
  refl, ap, Bool, true, false, Option, none, some, List, arith, if◌then◌else◌, drop, Bytes, codes,
}
use redi_craft.Prelude.Int.{ℤ, pos}
use redi_craft.Number.{stoll}
use redi_craft.Parser.{
  CommandType, at, ping, set, get, incr, decr, incrby, hset, hget, hgetall, lpush, rpop, lrange,
  expire, ttl, sadd, smembers, srem, sismember, scard, unknown,
}
use redi_craft.Storage.{Storage, Readings}
use redi_craft.Storage.Reads.{NotBefore}
use redi_craft.Session.Replies.{
  Clock, line, number, value_or_nil, flag, fields_text, values_text, members_text,
}
use redi_craft.Session.Cases.{respond_with}
use redi_craft.Session.{storage_methods}
use redi_craft.Spec.Agrees.{Implements, Same}
use redi_craft.Spec.Texts.{set-Same, get-Same, incrby-Same, incr-Same, decr-Same}
use redi_craft.Spec.Collections.{
  hset-Same, hget-Same, hgetall-Same, lpush-Same, rpop-Same, lrange-Same, sadd-Same, srem-Same,
  sismember-Same, smembers-Same, scard-Same,
}
use redi_craft.Spec.Lifetimes.{NotStale, Implements-later, expire-Same, ttl-Same}
use redi_craft.Storage.Expiry
use redi_craft.Spec

answer :
    {R : Type 0} {now : Readings} {p : R × Storage} {q : R × Spec.Store} (reply : R → Bytes)
    → Same now p q
    → Same now (reply p.0, p.1) (reply q.0, q.1)
answer reply h = (ap reply h.0, h.1)

gate :
    {now : Readings} (b : Bool) {x y : Bytes × Storage} {x' y' : Bytes × Spec.Store}
    → Same now x x'
    → Same now y y'
    → Same now (if b then x else y) (if b then x' else y')
gate true h k = h
gate false h k = k

parsed :
    {now : Readings} (o : Option ℤ) {x : Bytes × Storage} {x' : Bytes × Spec.Store}
    {g : ℤ → Bytes × Storage} {g' : ℤ → Bytes × Spec.Store}
    → Same now x x'
    → ((n : ℤ) → Same now (g n) (g' n))
    → Same now
        (elim o as (λ _. Bytes × Storage) [ none ↦ x | some n ↦ g n ])
        (elim o as (λ _. Bytes × Spec.Store) [ none ↦ x' | some n ↦ g' n ])
parsed none h k = h
parsed (some n) h k = k n

-- The clock of a command follows the last one: `start` first, then the readings of the tables.
pub record InOrder (before : Readings) (c : Clock) : Type 0 where
  pub head : NotBefore before (λ t. c.start)
  pub body : NotBefore (λ t. c.start) c.at

-- EXPIRE and TTL are called of keys that are not stale.
abbrev pub IsFresh : Clock → CommandType → List Bytes → Storage → Type 0
IsFresh c expire args s = NotStale (λ t. c.start) (at args 0) s
IsFresh c ttl args s = NotStale c.at (at args 0) s
IsFresh c _ args s = Unit

NotBefore-trans : (a b c : Readings) → NotBefore a b → NotBefore b c → NotBefore a c
NotBefore-trans a b c h k t = omega (arith, h t, k t)

module _ (before : Readings) (c : Clock) (args : List Bytes) (s : Storage) (f : Spec.Store)
    (order : InOrder before c) (h : Implements before s f) where
  on_time : NotBefore before c.at
  on_time = NotBefore-trans before (λ t. c.start) c.at order.head order.body

  kept : Implements c.at s f
  kept = Implements-later before c.at s f on_time h

  refused : (text : Bytes) → Same c.at (text, s) (text, f)
  refused text = (refl, kept)

  expired :
      (n : ℤ)
      → NotStale (λ t. c.start) (at args 0) s
      → Same c.at (Expiry.expire c.start (at args 0) n s) (Spec.expire c.start (at args 0) n f)
  expired n fresh =
      let first : Readings = λ t. c.start in
      let now = Implements-later before first s f order.head h in
      let r = expire-Same c.start (at args 0) n s f now fresh in
      (r.0, Implements-later first c.at _ _ order.body r.1)

  pub respond-Same :
      (t : CommandType)
      → IsFresh c t args s
      → Same c.at
          (respond_with storage_methods c t args s)
          (respond_with Spec.store_methods c t args f)
  unfolding respond_with
  respond-Same ping fresh = refused _
  respond-Same unknown fresh = refused _
  respond-Same set fresh =
      gate _
        (answer (λ _. line (codes "OK"))
          (set-Same before c.at (at args 0) s f on_time h (at args 1)))
        (refused _)
  respond-Same get fresh =
      gate _ (answer value_or_nil (get-Same before c.at (at args 0) s f on_time h)) (refused _)
  respond-Same incr fresh =
      gate _ (answer number (incr-Same before c.at (at args 0) s f on_time h)) (refused _)
  respond-Same decr fresh =
      gate _ (answer number (decr-Same before c.at (at args 0) s f on_time h)) (refused _)
  respond-Same incrby fresh =
      gate _
        (parsed (stoll (at args 1)) (refused _)
          (λ n. answer number (incrby-Same before c.at (at args 0) s f on_time h n)))
        (refused _)
  respond-Same hset fresh =
      gate _
        (answer (λ _. line (codes "OK"))
          (hset-Same before c.at (at args 0) s f on_time h (at args 1) (at args 2)))
        (refused _)
  respond-Same hget fresh =
      gate _ (answer value_or_nil (hget-Same before c.at (at args 0) s f on_time h (at args 1)))
        (refused _)
  respond-Same hgetall fresh =
      gate _ (answer fields_text (hgetall-Same before c.at (at args 0) s f on_time h)) (refused _)
  respond-Same lpush fresh =
      gate _
        (answer (λ n. number (pos n))
          (lpush-Same before c.at (at args 0) s f on_time h (drop 1 args)))
        (refused _)
  respond-Same rpop fresh =
      gate _ (answer value_or_nil (rpop-Same before c.at (at args 0) s f on_time h)) (refused _)
  respond-Same lrange fresh =
      gate _
        (parsed (stoll (at args 1)) (refused _) (λ i.
          parsed (stoll (at args 2)) (refused _)
            (λ j. answer values_text (lrange-Same before c.at (at args 0) s f on_time h i j))))
        (refused _)
  respond-Same sadd fresh =
      gate _
        (answer (λ n. number (pos n))
          (sadd-Same before c.at (at args 0) s f on_time h (drop 1 args)))
        (refused _)
  respond-Same smembers fresh =
      gate _ (answer members_text (smembers-Same before c.at (at args 0) s f on_time h)) (refused _)
  respond-Same srem fresh =
      gate _
        (answer (λ n. number (pos n))
          (srem-Same before c.at (at args 0) s f on_time h (drop 1 args)))
        (refused _)
  respond-Same sismember fresh =
      gate _ (answer flag (sismember-Same before c.at (at args 0) s f on_time h (at args 1)))
        (refused _)
  respond-Same scard fresh =
      gate _ (answer (λ n. number (pos n)) (scard-Same before c.at (at args 0) s f on_time h))
        (refused _)
  respond-Same expire fresh =
      gate _ (parsed (stoll (at args 1)) (refused _) (λ n. answer flag (expired n fresh)))
        (refused _)
  respond-Same ttl fresh =
      gate _ (answer number (ttl-Same c.start c.at (at args 0) s f kept fresh)) (refused _)
