-- ===== src/Session/Calls.antt =====
-- The methods of Storage as a session calls them (RediCraft-Server/include/storage.h): each takes the
-- readings of the clock and the state, and returns its result with the state that it leaves.
use redi_craft.Prelude.{ℕ, Bool, Option, List, Bytes}
use redi_craft.Prelude.Int.{ℤ}
use redi_craft.Table.{Table}
use redi_craft.Storage.{Readings}

pub record Methods (S : Type 0) : Type 0 where
  pub set : Readings → Bytes → Bytes → S → Bool × S
  pub get : Readings → Bytes → S → Option Bytes × S
  pub incr : Readings → Bytes → S → ℤ × S
  pub decr : Readings → Bytes → S → ℤ × S
  pub incrby : Readings → Bytes → ℤ → S → ℤ × S
  pub hset : Readings → Bytes → Bytes → Bytes → S → Bool × S
  pub hget : Readings → Bytes → Bytes → S → Option Bytes × S
  pub hgetall : Readings → Bytes → S → Table Bytes × S
  pub lpush : Readings → Bytes → List Bytes → S → ℕ × S
  pub rpop : Readings → Bytes → S → Option Bytes × S
  pub lrange : Readings → Bytes → ℤ → ℤ → S → List Bytes × S
  pub sadd : Readings → Bytes → List Bytes → S → ℕ × S
  pub srem : Readings → Bytes → List Bytes → S → ℕ × S
  pub sismember : Readings → Bytes → Bytes → S → Bool × S
  pub smembers : Readings → Bytes → S → Table Bool × S
  pub scard : Readings → Bytes → S → ℕ × S
  pub expire : ℤ → Bytes → ℤ → S → Bool × S
  pub ttl : ℤ → Readings → Bytes → S → ℤ × S
