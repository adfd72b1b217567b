-- ===== src/Session/Types.antt =====
-- The types of the answers of Session::handle_command (RediCraft-Server/src/session.cpp): what a client
-- that knows the command can rely on when it reads the answer.
pub mod Answers
use redi_craft.Prelude.{
  ℕ, ◌+◌, ◌≡◌, refl, sym, ap, ◌∙◌, ◌≢◌, ◌⊎◌, inl, inr, Bool, true, false, Option, none, some, List,
  [], ◌∷◌, ◌++◌, append-nil, ◌==◌, ◌||◌, if◌then◌else◌, arith, Option-cases, length, drop, All,
  All-append, All-weaken, Bytes, codes, is_space,
}
use redi_craft.Prelude.Int.{ℤ, pos}
use redi_craft.Table.{Table}
use redi_craft.Table.Laws.{Entries}
use redi_craft.Number.{to_string, stoll}
use redi_craft.Number.RoundTrip.{to_string-All}
use redi_craft.Parser.{
  CommandType, at, parse, ping, set, get, incr, decr, incrby, hset, hget, hgetall, lpush, rpop,
  lrange, expire, ttl, sadd, smembers, srem, sismember, scard, unknown,
}
use redi_craft.Parser.Tokens.Laws.{IsToken}
use redi_craft.Storage.{Storage}
use redi_craft.Storage.Invariant.{IsTextOf, IsClosed, IsStoreOf}
use redi_craft.Storage.Invariant.Results.{
  Each, get-Each, hget-Each, hgetall-Entries, lrange-All, smembers-Entries, rpop-Each,
}
use redi_craft.Session.Replies.{
  Clock, line, number, value_or_nil, flag, field_lines, fields_text, value_lines, values_text,
  member_lines, members_text,
}
use redi_craft.Session.{storage_methods, respond, handle_command}
use redi_craft.Session.Cases.{handle_with}
use redi_craft.Session.Errors.{complaint, served, answered, number_at, handle_with_lem}

-- no "\n" and no "\r" in the text
abbrev pub IsLineText : Bytes → Type 0
IsLineText = All (λ c. (c ≢ 10) × (c ≢ 13))

unfoldable pub is_line_text : Bytes → Bool
is_line_text [] = true
is_line_text (c ∷ s) = if c == 10 || c == 13 then false else is_line_text s

pub is_line_text-IsLineText : (s : Bytes) → is_line_text s ≡ true → IsLineText s
unfolding is_line_text
is_line_text-IsLineText [] h = tt
is_line_text-IsLineText (c ∷ s) h = ground (arith, is_line_text-IsLineText s)

pub IsLineText-IsClosed : IsClosed IsLineText
IsLineText-IsClosed = record {
  empty = tt;
  printed =
      to_string-All (λ c. (c ≢ 10) × (c ≢ 13)) (λ e. omega arith, λ e. omega arith)
        (λ d h. (λ e. omega arith, λ e. omega arith));
}

pub IsToken-IsLineText : (t : Bytes) → IsToken t → IsLineText t
unfolding is_space
IsToken-IsLineText t h = All-weaken (λ c e. (λ n. ground arith, λ n. ground arith)) t h.0

pub data ReplyType : Type 0 where
  status : Bytes → ReplyType
  integer bit text listing refusal : ReplyType

-- the type of the answer to a command
abbrev pub reply_type : CommandType → ReplyType
reply_type ping = status (codes "PONG")
reply_type set = status (codes "OK")
reply_type hset = status (codes "OK")
reply_type get = text
reply_type hget = text
reply_type rpop = text
reply_type hgetall = listing
reply_type lrange = listing
reply_type smembers = listing
reply_type expire = bit
reply_type sismember = bit
reply_type unknown = refusal
reply_type _ = integer

-- the commands with an argument that must be a number
abbrev pub takes_number : CommandType → Bool
takes_number incrby = true
takes_number expire = true
takes_number lrange = true
takes_number _ = false

-- each line with its "\r\n"
abbrev sent_lines : List Bytes → Bytes
sent_lines [] = []
sent_lines (l ∷ ls) = line l ++ sent_lines ls

-- The bytes are an answer of the type.
abbrev pub IsReply : ReplyType → Bytes → Type 0
IsReply (status word) b = b ≡ line word
IsReply integer b = (n : ℤ) × (b ≡ line (to_string n))
IsReply bit b = (b ≡ line (codes "0")) ⊎ (b ≡ line (codes "1"))
IsReply text b = (v : Bytes) × IsLineText v × (b ≡ line v)
IsReply listing b = (ls : List Bytes) × (ls ≢ []) × All IsLineText ls × (b ≡ sent_lines ls)
IsReply refusal b = (m : Bytes) × IsLineText m × (b ≡ line (codes "ERROR: " ++ m))

-- The bytes are of the type of the command's answers, or refuse an argument that must be a number.
abbrev pub IsAnswerTo : CommandType → Bytes → Type 0
IsAnswerTo t b = IsReply (reply_type t) b ⊎ ((takes_number t ≡ true) × IsReply refusal b)

pub value_or_nil-IsReply : (o : Option Bytes) → Each IsLineText o → IsReply text (value_or_nil o)
unfolding value_or_nil is_line_text
value_or_nil-IsReply none h = (codes "(nil)", is_line_text-IsLineText (codes "(nil)") refl, refl)
value_or_nil-IsReply (some v) h = (v, h, refl)

-- a name and a value, with the program's mark between them
joined-IsLineText :
    (a mark b : Bytes)
    → IsLineText a
    → IsLineText mark
    → IsLineText b
    → IsLineText (a ++ (mark ++ b))
joined-IsLineText a mark b ha hm hb = All-append _ a _ ha (All-append _ mark b hm hb)

-- The bytes are lines.
abbrev AreSent : Bytes → Type 0
AreSent b = (ls : List Bytes) × All IsLineText ls × (b ≡ sent_lines ls)

behind : (l b : Bytes) → IsLineText l → AreSent b → IsReply listing (line l ++ b)
behind l b hl (ls, h, e) = (l ∷ ls, cc, (hl, h), ap (λ t. line l ++ t) e)

one_line : (l : Bytes) → is_line_text l ≡ true → IsReply listing (line l)
one_line l h = (l ∷ [], cc, (is_line_text-IsLineText l h, tt), sym (append-nil (line l)))

field_line-IsLineText :
    (name value : Bytes)
    → IsLineText name
    → IsLineText value
    → IsLineText (name ++ (codes ": " ++ value))
unfolding is_line_text
field_line-IsLineText name value hn hv =
    joined-IsLineText name (codes ": ") value hn (is_line_text-IsLineText (codes ": ") refl) hv

value_line-IsLineText :
    (i : ℕ) (value : Bytes)
    → IsLineText value
    → IsLineText (to_string (pos i) ++ (codes ") " ++ value))
unfolding is_line_text
value_line-IsLineText i value hv =
    joined-IsLineText (to_string (pos i)) (codes ") ") value (IsLineText-IsClosed.printed (pos i))
      (is_line_text-IsLineText (codes ") ") refl) hv

field_lines-sent : (m : Table Bytes) → Entries (IsTextOf IsLineText) m → AreSent (field_lines m)
unfolding field_lines
field_lines-sent [] h = ([], tt, refl)
field_lines-sent ((name, value) ∷ m) ((hn, hv), h) =
    let (ls, hs, e) = field_lines-sent m h in
    let l = name ++ (codes ": " ++ value) in
    (l ∷ ls, (field_line-IsLineText name value hn hv, hs), ap (λ t. line l ++ t) e)

value_lines-sent :
    (i : ℕ) (values : List Bytes) → All IsLineText values → AreSent (value_lines i values)
unfolding value_lines
value_lines-sent i [] h = ([], tt, refl)
value_lines-sent i (value ∷ values) (hv, h) =
    let (ls, hs, e) = value_lines-sent (i + 1) values h in
    let l = to_string (pos i) ++ (codes ") " ++ value) in
    (l ∷ ls, (value_line-IsLineText i value hv, hs), ap (λ t. line l ++ t) e)

member_lines-sent :
    (m : Table Bool) → Entries (λ x present. IsLineText x) m → AreSent (member_lines m)
unfolding member_lines
member_lines-sent [] h = ([], tt, refl)
member_lines-sent ((x, present) ∷ m) (hx, h) =
    let (ls, hs, e) = member_lines-sent m h in (x ∷ ls, (hx, hs), ap (λ t. line x ++ t) e)

pub fields_text-IsReply :
    (m : Table Bytes) → Entries (IsTextOf IsLineText) m → IsReply listing (fields_text m)
unfolding fields_text field_lines is_line_text
fields_text-IsReply [] h = one_line (codes "(empty hash)") refl
fields_text-IsReply ((name, value) ∷ m) ((hn, hv), h) =
    behind (name ++ (codes ": " ++ value)) (field_lines m) (field_line-IsLineText name value hn hv)
      (field_lines-sent m h)

pub values_text-IsReply :
    (values : List Bytes) → All IsLineText values → IsReply listing (values_text values)
unfolding values_text value_lines is_line_text
values_text-IsReply [] h = one_line (codes "(empty list)") refl
values_text-IsReply (value ∷ values) (hv, h) =
    behind (to_string (pos 0) ++ (codes ") " ++ value)) (value_lines 1 values)
      (value_line-IsLineText 0 value hv) (value_lines-sent 1 values h)

pub members_text-IsReply :
    (m : Table Bool) → Entries (λ x present. IsLineText x) m → IsReply listing (members_text m)
unfolding members_text member_lines is_line_text
members_text-IsReply [] h = one_line (codes "(empty set)") refl
members_text-IsReply ((x, present) ∷ m) (hx, h) =
    behind x (member_lines m) hx (member_lines-sent m h)

pub number-IsReply : (n : ℤ) → IsReply integer (number n)
unfolding number
number-IsReply n = (n, refl)

pub flag-IsReply : (b : Bool) → IsReply bit (flag b)
unfolding flag
flag-IsReply true = inr refl
flag-IsReply false = inl refl
