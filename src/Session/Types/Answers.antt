-- ===== src/Session/Types/Answers.antt =====
-- The answers of Session::handle_command (RediCraft-Server/src/session.cpp) and their types, command
-- by command.
use redi_craft.Prelude.{◌≡◌, refl, inl, inr, true, List, ◌++◌, Option-cases, Bytes, codes}
use redi_craft.Number.{stoll}
use redi_craft.Parser.{
  CommandType, at, parse, ping, set, get, incr, decr, incrby, hset, hget, hgetall, lpush, rpop,
  lrange, expire, ttl, sadd, smembers, srem, sismember, scard, unknown,
}
use redi_craft.Storage.{Storage}
use redi_craft.Storage.Invariant.{IsStoreOf}
use redi_craft.Storage.Invariant.Results.{
  get-Each, hget-Each, hgetall-Entries, lrange-All, smembers-Entries, rpop-Each,
}
use redi_craft.Session.Replies.{Clock, line}
use redi_craft.Session.{storage_methods, respond, handle_command}
use redi_craft.Session.Cases.{handle_with}
use redi_craft.Session.Errors.{complaint, served, answered, number_at, handle_with_lem}
use redi_craft.Session.Keeps.{handle_command-IsStoreOf}
use redi_craft.Session.Types.{
  number-IsReply, flag-IsReply, IsLineText, is_line_text, is_line_text-IsLineText,
  IsLineText-IsClosed, IsToken-IsLineText, reply_type, takes_number, IsReply, IsAnswerTo,
  value_or_nil-IsReply, fields_text-IsReply, values_text-IsReply, members_text-IsReply,
}

module _ (c : Clock) (args : List Bytes) (s : Storage) (w : IsStoreOf IsLineText s) where
  -- the answer of a method, by the type of the command
  served-IsReply : (t : CommandType) → IsReply (reply_type t) (served storage_methods c t args s).0
  unfolding is_line_text
  served-IsReply ping = refl
  served-IsReply set = refl
  served-IsReply hset = refl
  served-IsReply get = value_or_nil-IsReply _ (get-Each c.at (at args 0) s w)
  served-IsReply hget = value_or_nil-IsReply _ (hget-Each c.at (at args 0) s w (at args 1))
  served-IsReply rpop = value_or_nil-IsReply _ (rpop-Each c.at (at args 0) s w)
  served-IsReply hgetall = fields_text-IsReply _ (hgetall-Entries c.at (at args 0) s w)
  served-IsReply lrange =
      values_text-IsReply _ (lrange-All c.at (at args 0) s w (number_at 1 args) (number_at 2 args))
  served-IsReply smembers = members_text-IsReply _ (smembers-Entries c.at (at args 0) s w)
  served-IsReply expire = flag-IsReply _
  served-IsReply sismember = flag-IsReply _
  served-IsReply incr = number-IsReply _
  served-IsReply decr = number-IsReply _
  served-IsReply incrby = number-IsReply _
  served-IsReply lpush = number-IsReply _
  served-IsReply sadd = number-IsReply _
  served-IsReply srem = number-IsReply _
  served-IsReply scard = number-IsReply _
  served-IsReply ttl = number-IsReply _
  served-IsReply unknown =
      (codes "Unknown command", is_line_text-IsLineText (codes "Unknown command") refl, refl)

  -- what a refused command is told
  refused :
      (t : CommandType) (m : Bytes)
      → takes_number t ≡ true
      → is_line_text m ≡ true
      → IsAnswerTo t (line (codes "ERROR: " ++ m))
  refused t m e h = inr (e, (m, is_line_text-IsLineText m h, refl))

  answered-IsAnswerTo : (t : CommandType) → IsAnswerTo t (answered storage_methods c t args s).0
  unfolding is_line_text
  answered-IsAnswerTo unknown = inl (served-IsReply unknown)
  answered-IsAnswerTo incrby = elim (Option-cases (stoll (at args 1))) [
    | inl bad ↦
        rw (answered, complaint, bad) (refused incrby (codes "Invalid increment value") refl refl)
    | inr (n, good) ↦ rw (answered, complaint, good) (inl (number-IsReply _))
  ]
  answered-IsAnswerTo expire = elim (Option-cases (stoll (at args 1))) [
    | inl bad ↦
        rw (answered, complaint, bad) (refused expire (codes "Invalid seconds value") refl refl)
    | inr (n, good) ↦ rw (answered, complaint, good) (inl (flag-IsReply _))
  ]
  answered-IsAnswerTo lrange = elim (Option-cases (stoll (at args 1))) [
    | inl bad ↦
        rw (answered, complaint, bad) (refused lrange (codes "Invalid range values") refl refl)
    | inr (i, good) ↦ elim (Option-cases (stoll (at args 2))) [
      | inl bad ↦
          rw (answered, complaint, good, bad)
            (refused lrange (codes "Invalid range values") refl refl)
      | inr (j, fine) ↦
          rw (answered, complaint, good, fine)
            (inl (values_text-IsReply _ (lrange-All c.at (at args 0) s w _ _)))
    ]
  ]
  answered-IsAnswerTo ping = inl (served-IsReply ping)
  answered-IsAnswerTo set = inl (served-IsReply set)
  answered-IsAnswerTo hset = inl (served-IsReply hset)
  answered-IsAnswerTo get = inl (served-IsReply get)
  answered-IsAnswerTo hget = inl (served-IsReply hget)
  answered-IsAnswerTo rpop = inl (served-IsReply rpop)
  answered-IsAnswerTo hgetall = inl (served-IsReply hgetall)
  answered-IsAnswerTo smembers = inl (served-IsReply smembers)
  answered-IsAnswerTo sismember = inl (served-IsReply sismember)
  answered-IsAnswerTo incr = inl (served-IsReply incr)
  answered-IsAnswerTo decr = inl (served-IsReply decr)
  answered-IsAnswerTo lpush = inl (served-IsReply lpush)
  answered-IsAnswerTo sadd = inl (served-IsReply sadd)
  answered-IsAnswerTo srem = inl (served-IsReply srem)
  answered-IsAnswerTo scard = inl (served-IsReply scard)
  answered-IsAnswerTo ttl = inl (served-IsReply ttl)

-- Where no key, field, member or value of the storage holds a "\n" or a "\r", every text that a
-- client sends is answered with bytes of the type of its command, or, if the command takes a number
-- and gets none, with an error; and the storage is left so.
pub handle_command-IsAnswerTo :
    (c : Clock) (text : Bytes) (s : Storage)
    → IsStoreOf IsLineText s
    → IsAnswerTo (parse text).type (handle_command c text s).0
      × IsStoreOf IsLineText (handle_command c text s).1
unfolding handle_command handle_with respond
handle_command-IsAnswerTo c text s w = (
  rw (handle_with_lem storage_methods c text s)
      (answered-IsAnswerTo c (parse text).args s w (parse text).type),
  handle_command-IsStoreOf IsLineText-IsClosed c text s IsToken-IsLineText w,
)
