-- ===== src/Session/Errors.antt =====
-- Which commands Session::handle_command refuses (RediCraft-Server/src/session.cpp).
use redi_craft.Prelude.{
  ℕ, ◌≤◌, ◌≡◌, refl, inl, inr, Option, none, some, List, le→leb, Option-cases, length, drop, Bytes,
  codes,
}
use redi_craft.Prelude.Int.{ℤ, pos}
use redi_craft.Number.{stoll}
use redi_craft.Parser.{
  CommandType, at, parse, ping, set, get, incr, decr, incrby, hset, hget, hgetall, lpush, rpop,
  lrange, expire, ttl, sadd, smembers, srem, sismember, scard, unknown,
}
use redi_craft.Parser.Arity.{needed, parse-IsReady}
use redi_craft.Session.Calls.{Methods}
use redi_craft.Session.Replies.{
  Clock, line, number, value_or_nil, flag, fields_text, values_text, members_text,
}
use redi_craft.Session.Cases.{respond_with, handle_with}

-- the number that an argument is, where it is one
abbrev pub number_at : ℕ → List Bytes → ℤ
number_at i args = elim (stoll (at args i)) [ none ↦ pos 0 | some n ↦ n ]

-- what a client is told of a command that reaches no method
abbrev pub complaint : CommandType → List Bytes → Option Bytes
complaint unknown args = some (codes "ERROR: Unknown command")
complaint incrby args = elim (stoll (at args 1)) [
  | none ↦ some (codes "ERROR: Invalid increment value")
  | some n ↦ none
]
complaint expire args = elim (stoll (at args 1)) [
  | none ↦ some (codes "ERROR: Invalid seconds value")
  | some n ↦ none
]
complaint lrange args = elim (stoll (at args 1)) [
  | none ↦ some (codes "ERROR: Invalid range values")
  | some n ↦ elim (stoll (at args 2)) [
    | none ↦ some (codes "ERROR: Invalid range values")
    | some k ↦ none
  ]
]
complaint _ args = none

module _ {S : Type 0} (m : Methods S) (c : Clock) where
  -- the method of a command, with no test of its arguments
  abbrev pub served : CommandType → List Bytes → S → Bytes × S
  served ping args s = (line (codes "PONG"), s)
  served set args s = let (r, s') = m.set c.at (at args 0) (at args 1) s in (line (codes "OK"), s')
  served get args s = let (r, s') = m.get c.at (at args 0) s in (value_or_nil r, s')
  served incr args s = let (r, s') = m.incr c.at (at args 0) s in (number r, s')
  served decr args s = let (r, s') = m.decr c.at (at args 0) s in (number r, s')
  served incrby args s =
      let (r, s') = m.incrby c.at (at args 0) (number_at 1 args) s in (number r, s')
  served hset args s =
      let (r, s') = m.hset c.at (at args 0) (at args 1) (at args 2) s in (line (codes "OK"), s')
  served hget args s = let (r, s') = m.hget c.at (at args 0) (at args 1) s in (value_or_nil r, s')
  served hgetall args s = let (r, s') = m.hgetall c.at (at args 0) s in (fields_text r, s')
  served lpush args s =
      let (r, s') = m.lpush c.at (at args 0) (drop 1 args) s in (number (pos r), s')
  served rpop args s = let (r, s') = m.rpop c.at (at args 0) s in (value_or_nil r, s')
  served lrange args s =
      let (r, s') = m.lrange c.at (at args 0) (number_at 1 args) (number_at 2 args) s in
      (values_text r, s')
  served sadd args s = let (r, s') = m.sadd c.at (at args 0) (drop 1 args) s in (number (pos r), s')
  served smembers args s = let (r, s') = m.smembers c.at (at args 0) s in (members_text r, s')
  served srem args s = let (r, s') = m.srem c.at (at args 0) (drop 1 args) s in (number (pos r), s')
  served sismember args s = let (r, s') = m.sismember c.at (at args 0) (at args 1) s in (flag r, s')
  served scard args s = let (r, s') = m.scard c.at (at args 0) s in (number (pos r), s')
  served expire args s =
      let (r, s') = m.expire c.start (at args 0) (number_at 1 args) s in (flag r, s')
  served ttl args s = let (r, s') = m.ttl c.start c.at (at args 0) s in (number r, s')
  served unknown args s = (line (codes "ERROR: Unknown command"), s)

  -- the complaint, with the state as it was, or else the method
  abbrev pub answered : CommandType → List Bytes → S → Bytes × S
  answered t args s = elim (complaint t args) [
    | none ↦ served t args s
    | some message ↦ (line message, s)
  ]

  respond_with-answered :
      (t : CommandType) (args : List Bytes) (s : S)
      → needed t ≤ length args
      → respond_with m c t args s ≡ answered t args s
  unfolding respond_with
  respond_with-answered ping args s enough = refl
  respond_with-answered unknown args s enough = refl
  respond_with-answered set args s enough = rw (le→leb 2 (length args) enough) refl
  respond_with-answered get args s enough = rw (le→leb 1 (length args) enough) refl
  respond_with-answered incr args s enough = rw (le→leb 1 (length args) enough) refl
  respond_with-answered decr args s enough = rw (le→leb 1 (length args) enough) refl
  respond_with-answered incrby args s enough = elim (Option-cases (stoll (at args 1))) [
    | inl bad ↦ rw (le→leb 2 (length args) enough, answered, complaint, bad) refl
    | inr (i, good) ↦
        rw (le→leb 2 (length args) enough, answered, complaint, good, served, number_at, good) refl
  ]
  respond_with-answered hset args s enough = rw (le→leb 3 (length args) enough) refl
  respond_with-answered hget args s enough = rw (le→leb 2 (length args) enough) refl
  respond_with-answered hgetall args s enough = rw (le→leb 1 (length args) enough) refl
  respond_with-answered lpush args s enough = rw (le→leb 2 (length args) enough) refl
  respond_with-answered rpop args s enough = rw (le→leb 1 (length args) enough) refl
  respond_with-answered lrange args s enough = elim (Option-cases (stoll (at args 1))) [
    | inl bad ↦ rw (le→leb 3 (length args) enough, answered, complaint, bad) refl
    | inr (i, good) ↦ elim (Option-cases (stoll (at args 2))) [
      | inl bad ↦ rw (le→leb 3 (length args) enough, answered, complaint, good, bad) refl
      | inr (j, fine) ↦
          rw
            (
              le→leb 3 (length args) enough,
              answered,
              complaint,
              good,
              fine,
              served,
              number_at,
              good,
              fine,
            )
            refl
    ]
  ]
  respond_with-answered sadd args s enough = rw (le→leb 2 (length args) enough) refl
  respond_with-answered smembers args s enough = rw (le→leb 1 (length args) enough) refl
  respond_with-answered srem args s enough = rw (le→leb 2 (length args) enough) refl
  respond_with-answered sismember args s enough = rw (le→leb 2 (length args) enough) refl
  respond_with-answered scard args s enough = rw (le→leb 1 (length args) enough) refl
  respond_with-answered expire args s enough = elim (Option-cases (stoll (at args 1))) [
    | inl bad ↦ rw (le→leb 2 (length args) enough, answered, complaint, bad) refl
    | inr (i, good) ↦
        rw (le→leb 2 (length args) enough, answered, complaint, good, served, number_at, good) refl
  ]
  respond_with-answered ttl args s enough = rw (le→leb 1 (length args) enough) refl

  -- Whatever text a client sends, and whatever store is behind the session: a text that is no command,
  -- and an INCRBY, EXPIRE or LRANGE with an argument that std::stoll rejects, is answered with its
  -- error and reaches no method; every other command calls its method and is answered with what that
  -- returns, and no command is ever refused for its number of arguments.
  pub handle_with_lem :
      (text : Bytes) (s : S)
      → handle_with m c text s ≡ answered (parse text).type (parse text).args s
  unfolding handle_with
  handle_with_lem text s =
      respond_with-answered (parse text).type (parse text).args s (parse-IsReady text).enough
