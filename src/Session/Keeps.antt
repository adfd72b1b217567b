-- ===== src/Session/Keeps.antt =====
-- What Session::handle_command (RediCraft-Server/src/session.cpp) keeps of a storage: its
-- well-formedness, and predicates of its texts.
use redi_craft.Prelude.{
  ℕ, zero, suc, Bool, true, false, Option, none, some, List, [], ◌∷◌, arith, if◌then◌else◌, drop,
  All, All-weaken, drop-All, Bytes,
}
use redi_craft.Prelude.Int.{ℤ}
use redi_craft.Number.{stoll}
use redi_craft.Parser.{
  CommandType, at, parse, ping, set, get, incr, decr, incrby, hset, hget, hgetall, lpush, rpop,
  lrange, expire, ttl, sadd, smembers, srem, sismember, scard, unknown,
}
use redi_craft.Parser.Tokens.Laws.{IsToken}
use redi_craft.Parser.Arity.{parse-IsReady}
use redi_craft.Storage.{Storage, remove_expired}
use redi_craft.Storage.Invariant.{
  IsClosed, IsStoreOf, Anything-IsClosed, IsWellFormed, remove_expired-IsStoreOf,
}
use redi_craft.Storage.Invariant.Methods.{
  set-IsStoreOf, incrby-IsStoreOf, incr-IsStoreOf, decr-IsStoreOf, hset-IsStoreOf, lpush-IsStoreOf,
  rpop-IsStoreOf, sadd-IsStoreOf, srem-IsStoreOf,
}
use redi_craft.Storage.Invariant.Expiries.{ttl-IsStoreOf, expire-IsStoreOf}
use redi_craft.Session.Replies.{Clock}
use redi_craft.Session.{respond, handle_command}
use redi_craft.Storage.Strings
use redi_craft.Storage.Hashes
use redi_craft.Storage.Lists
use redi_craft.Storage.Sets

module _ {Q : Bytes → Type 0} (closed : IsClosed Q) where
  at-All : (args : List Bytes) (i : ℕ) → All Q args → Q (at args i)
  at-All [] i q = closed.empty
  at-All (x ∷ args) zero (qx, q) = qx
  at-All (x ∷ args) (suc i) (qx, q) = at-All args i q

  -- the case of SADD, at the arguments that its test lets through
  respond-sadd-IsStoreOf :
      (c : Clock) (args : List Bytes) (s : Storage)
      → All Q args
      → IsStoreOf Q s
      → IsStoreOf Q (respond c sadd args s).1
  unfolding respond
  respond-sadd-IsStoreOf c [] s q w = w
  respond-sadd-IsStoreOf c (k ∷ []) s q w = w
  respond-sadd-IsStoreOf c (k ∷ x ∷ ms) s (qk, q) w =
      let h = sadd-IsStoreOf closed c.at k s qk w x ms q in ground (arith, h)

  gate :
      (b : Bool) (x y : Bytes × Storage)
      → IsStoreOf Q x.1
      → IsStoreOf Q y.1
      → IsStoreOf Q (if b then x else y).1
  gate true x y h k = h
  gate false x y h k = k

  parsed :
      (o : Option ℤ) (x : Bytes × Storage) (f : ℤ → Bytes × Storage)
      → IsStoreOf Q x.1
      → ((n : ℤ) → IsStoreOf Q (f n).1)
      → IsStoreOf Q (elim o as (λ _. Bytes × Storage) [ none ↦ x | some n ↦ f n ]).1
  parsed none x f h k = h
  parsed (some n) x f h k = k n

module _ {Q : Bytes → Type 0} (closed : IsClosed Q) (c : Clock) (args : List Bytes) (q : All Q args)
    (s : Storage) (w : IsStoreOf Q s) where
  purged : IsStoreOf Q (remove_expired c.at (at args 0) s)
  purged = remove_expired-IsStoreOf c.at (at args 0) s w

  key_is : Q (at args 0)
  key_is = at-All closed args 0 q

  respond-IsStoreOf : (t : CommandType) → IsStoreOf Q (respond c t args s).1
  unfolding respond Strings.get Hashes.hget Hashes.hgetall Lists.lrange Sets.smembers Sets.sismember
      Sets.scard
  respond-IsStoreOf ping = w
  respond-IsStoreOf unknown = w
  respond-IsStoreOf sadd = respond-sadd-IsStoreOf closed c args s q w
  respond-IsStoreOf set =
      gate closed _ _ _
        (set-IsStoreOf closed c.at (at args 0) s key_is w (at args 1) (at-All closed args 1 q)) w
  respond-IsStoreOf get = gate closed _ _ _ purged w
  respond-IsStoreOf incr = gate closed _ _ _ (incr-IsStoreOf closed c.at (at args 0) s key_is w) w
  respond-IsStoreOf decr = gate closed _ _ _ (decr-IsStoreOf closed c.at (at args 0) s key_is w) w
  respond-IsStoreOf incrby =
      gate closed _ _ _
        (parsed closed (stoll (at args 1)) _ _ w
          (λ n. incrby-IsStoreOf closed c.at (at args 0) s key_is w n))
        w
  respond-IsStoreOf hset =
      gate closed _ _ _
        (hset-IsStoreOf closed c.at (at args 0) s key_is w (at args 1) (at args 2)
          (at-All closed args 1 q) (at-All closed args 2 q))
        w
  respond-IsStoreOf hget = gate closed _ _ _ purged w
  respond-IsStoreOf hgetall = gate closed _ _ _ purged w
  respond-IsStoreOf lpush =
      gate closed _ _ _
        (lpush-IsStoreOf closed c.at (at args 0) s key_is w (drop 1 args) (drop-All Q 1 args q)) w
  respond-IsStoreOf rpop = gate closed _ _ _ (rpop-IsStoreOf closed c.at (at args 0) s key_is w) w
  respond-IsStoreOf lrange =
      gate closed _ _ _
        (parsed closed (stoll (at args 1)) _ _ w
          (λ i. parsed closed (stoll (at args 2)) _ _ w (λ j. purged)))
        w
  respond-IsStoreOf expire =
      gate closed _ _ _
        (parsed closed (stoll (at args 1)) _ _ w (λ n. expire-IsStoreOf c.start (at args 0) n s w))
        w
  respond-IsStoreOf ttl = gate closed _ _ _ (ttl-IsStoreOf c.start c.at (at args 0) s w) w
  respond-IsStoreOf smembers = gate closed _ _ _ purged w
  respond-IsStoreOf srem =
      gate closed _ _ _ (srem-IsStoreOf closed c.at (at args 0) s key_is w (drop 1 args)) w
  respond-IsStoreOf sismember = gate closed _ _ _ purged w
  respond-IsStoreOf scard = gate closed _ _ _ purged w

-- A predicate of texts that every token has, and every text that a command makes itself, is kept.
pub handle_command-IsStoreOf :
    {Q : Bytes → Type 0} (closed : IsClosed Q) (c : Clock) (text : Bytes) (s : Storage)
    → ((t : Bytes) → IsToken t → Q t)
    → IsStoreOf Q s
    → IsStoreOf Q (handle_command c text s).1
unfolding handle_command
handle_command-IsStoreOf closed c text s q w =
    let cmd = parse text in
    respond-IsStoreOf closed c cmd.args (All-weaken q cmd.args ((parse-IsReady text).tokens)) s w
      cmd.type

-- Any text that a client sends, valid or not, leaves a storage in which each key, field and member
-- is held once and no set is empty, if the storage was such before.
pub handle_command-IsWellFormed :
    (c : Clock) (text : Bytes) (s : Storage)
    → IsWellFormed s
    → IsWellFormed (handle_command c text s).1
handle_command-IsWellFormed c text s w =
    handle_command-IsStoreOf Anything-IsClosed c text s (λ t h. tt) w
