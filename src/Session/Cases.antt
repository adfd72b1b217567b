-- ===== src/Session/Cases.antt =====
-- The cases of the switch in Session::handle_command (RediCraft-Server/src/session.cpp), over the
-- methods of a storage: the session only calls these. A method takes the readings of the clock.
use redi_craft.Prelude.{none, some, List, leb, if◌then◌else◌, length, drop, Bytes, codes}
use redi_craft.Prelude.Int.{pos}
use redi_craft.Number.{stoll}
use redi_craft.Parser.{
  CommandType, at, parse, ping, set, get, incr, decr, incrby, hset, hget, hgetall, lpush, rpop,
  lrange, expire, ttl, sadd, smembers, srem, sismember, scard, unknown,
}
use redi_craft.Session.Calls.{Methods}
use redi_craft.Session.Replies.{
  Clock, line, number, value_or_nil, flag, fields_text, values_text, members_text,
}

module _ {S : Type 0} (m : Methods S) (c : Clock) (args : List Bytes) (s : S) where
  unfoldable on_set : Bytes × S
  on_set =
      if leb 2 (length args)
      then (let (r, s') = m.set c.at (at args 0) (at args 1) s in (line (codes "OK"), s'))
      else (line (codes "ERROR: SET requires key and value"), s)

  unfoldable on_get : Bytes × S
  on_get =
      if leb 1 (length args)
      then (let (r, s') = m.get c.at (at args 0) s in (value_or_nil r, s'))
      else (line (codes "ERROR: GET requires key"), s)

  unfoldable on_incr : Bytes × S
  on_incr =
      if leb 1 (length args)
      then (let (r, s') = m.incr c.at (at args 0) s in (number r, s'))
      else (line (codes "ERROR: INCR requires key"), s)

  unfoldable on_decr : Bytes × S
  on_decr =
      if leb 1 (length args)
      then (let (r, s') = m.decr c.at (at args 0) s in (number r, s'))
      else (line (codes "ERROR: DECR requires key"), s)

  unfoldable on_incrby : Bytes × S
  on_incrby =
      if leb 2 (length args)
      then (elim (stoll (at args 1)) [
        | none ↦ (line (codes "ERROR: Invalid increment value"), s)
        | some increment ↦ let (r, s') = m.incrby c.at (at args 0) increment s in (number r, s')
      ])
      else (line (codes "ERROR: INCRBY requires key and increment"), s)

  unfoldable on_hset : Bytes × S
  on_hset =
      if leb 3 (length args)
      then (let (r, s') = m.hset c.at (at args 0) (at args 1) (at args 2) s in
          (line (codes "OK"), s'))
      else (line (codes "ERROR: HSET requires hash key, field, and value"), s)

  unfoldable on_hget : Bytes × S
  on_hget =
      if leb 2 (length args)
      then (let (r, s') = m.hget c.at (at args 0) (at args 1) s in (value_or_nil r, s'))
      else (line (codes "ERROR: HGET requires hash key and field"), s)

  unfoldable on_hgetall : Bytes × S
  on_hgetall =
      if leb 1 (length args)
      then (let (r, s') = m.hgetall c.at (at args 0) s in (fields_text r, s'))
      else (line (codes "ERROR: HGETALL requires hash key"), s)

  unfoldable on_lpush : Bytes × S
  on_lpush =
      if leb 2 (length args)
      then (let (r, s') = m.lpush c.at (at args 0) (drop 1 args) s in (number (pos r), s'))
      else (line (codes "ERROR: LPUSH requires list key and at least one value"), s)

  unfoldable on_rpop : Bytes × S
  on_rpop =
      if leb 1 (length args)
      then (let (r, s') = m.rpop c.at (at args 0) s in (value_or_nil r, s'))
      else (line (codes "ERROR: RPOP requires list key"), s)

  unfoldable on_lrange : Bytes × S
  on_lrange =
      if leb 3 (length args)
      then (elim (stoll (at args 1)) [
        | none ↦ (line (codes "ERROR: Invalid range values"), s)
        | some start ↦ elim (stoll (at args 2)) [
          | none ↦ (line (codes "ERROR: Invalid range values"), s)
          | some end ↦ let (r, s') = m.lrange c.at (at args 0) start end s in (values_text r, s')
        ]
      ])
      else (line (codes "ERROR: LRANGE requires list key, start index, and end index"), s)

  unfoldable on_sadd : Bytes × S
  on_sadd =
      if leb 2 (length args)
      then (let (r, s') = m.sadd c.at (at args 0) (drop 1 args) s in (number (pos r), s'))
      else (line (codes "ERROR: SADD requires set key and at least one member"), s)

  unfoldable on_smembers : Bytes × S
  on_smembers =
      if leb 1 (length args)
      then (let (r, s') = m.smembers c.at (at args 0) s in (members_text r, s'))
      else (line (codes "ERROR: SMEMBERS requires set key"), s)

  unfoldable on_srem : Bytes × S
  on_srem =
      if leb 2 (length args)
      then (let (r, s') = m.srem c.at (at args 0) (drop 1 args) s in (number (pos r), s'))
      else (line (codes "ERROR: SREM requires set key and at least one member"), s)

  unfoldable on_sismember : Bytes × S
  on_sismember =
      if leb 2 (length args)
      then (let (r, s') = m.sismember c.at (at args 0) (at args 1) s in (flag r, s'))
      else (line (codes "ERROR: SISMEMBER requires set key and member"), s)

  unfoldable on_scard : Bytes × S
  on_scard =
      if leb 1 (length args)
      then (let (r, s') = m.scard c.at (at args 0) s in (number (pos r), s'))
      else (line (codes "ERROR: SCARD requires set key"), s)

  unfoldable on_expire : Bytes × S
  on_expire =
      if leb 2 (length args)
      then (elim (stoll (at args 1)) [
        | none ↦ (line (codes "ERROR: Invalid seconds value"), s)
        | some seconds ↦ let (r, s') = m.expire c.start (at args 0) seconds s in (flag r, s')
      ])
      else (line (codes "ERROR: EXPIRE requires key and seconds"), s)

  unfoldable on_ttl : Bytes × S
  on_ttl =
      if leb 1 (length args)
      then (let (r, s') = m.ttl c.start c.at (at args 0) s in (number r, s'))
      else (line (codes "ERROR: TTL requires key"), s)

-- the switch
unfoldable pub respond_with :
    {S : Type 0} → Methods S → Clock → CommandType → List Bytes → S → Bytes × S
unfolding on_set on_get on_incr on_decr on_incrby on_hset on_hget on_hgetall on_lpush on_rpop
    on_lrange on_sadd on_smembers on_srem on_sismember on_scard on_expire on_ttl
respond_with m c ping args s = (line (codes "PONG"), s)
respond_with m c set args s = on_set m c args s
respond_with m c get args s = on_get m c args s
respond_with m c incr args s = on_incr m c args s
respond_with m c decr args s = on_decr m c args s
respond_with m c incrby args s = on_incrby m c args s
respond_with m c hset args s = on_hset m c args s
respond_with m c hget args s = on_hget m c args s
respond_with m c hgetall args s = on_hgetall m c args s
respond_with m c lpush args s = on_lpush m c args s
respond_with m c rpop args s = on_rpop m c args s
respond_with m c lrange args s = on_lrange m c args s
respond_with m c sadd args s = on_sadd m c args s
respond_with m c smembers args s = on_smembers m c args s
respond_with m c srem args s = on_srem m c args s
respond_with m c sismember args s = on_sismember m c args s
respond_with m c scard args s = on_scard m c args s
respond_with m c expire args s = on_expire m c args s
respond_with m c ttl args s = on_ttl m c args s
respond_with m c unknown args s = (line (codes "ERROR: Unknown command"), s)

-- handle_command, over the methods of a storage
unfoldable pub handle_with : {S : Type 0} → Methods S → Clock → Bytes → S → Bytes × S
handle_with m c text s = let cmd = parse text in respond_with m c cmd.type cmd.args s
