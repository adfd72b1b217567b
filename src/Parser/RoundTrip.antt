-- ===== src/Parser/RoundTrip.antt =====
-- Every command can be sent: Parser::parse (RediCraft-Server/src/parser.cpp) reads back the text of
-- a command.
use mathlib.Core.Bool.{false≢true}
use redi_craft.Prelude.{
  ℕ, zero, suc, ◌≤◌, String, ◌≡◌, refl, sym, ap, ◌∙◌, ◌≢◌, ◌⊎◌, inl, inr, Bool, true, false, List,
  [], ◌∷◌, map, arith, if◌then◌else◌, Bool-cases, length, take, All, Bytes, codes, bytes_eq,
  toupper,
}
use redi_craft.Parser.Tokens.Laws.{IsToken, join, tokenize-join}
use redi_craft.Parser.{
  CommandType, command, is_command, second_half, first_half, parse_tokens, parse, ping, set, get,
  incr, decr, incrby, hset, hget, hgetall, lpush, rpop, lrange, expire, ttl, sadd, smembers, srem,
  sismember, scard, unknown,
}
use redi_craft.Parser.Arity.{needed}

abbrev pub name_of : CommandType → String
name_of ping = "PING"
name_of set = "SET"
name_of get = "GET"
name_of incr = "INCR"
name_of decr = "DECR"
name_of incrby = "INCRBY"
name_of hset = "HSET"
name_of hget = "HGET"
name_of hgetall = "HGETALL"
name_of lpush = "LPUSH"
name_of rpop = "RPOP"
name_of lrange = "LRANGE"
name_of expire = "EXPIRE"
name_of ttl = "TTL"
name_of sadd = "SADD"
name_of smembers = "SMEMBERS"
name_of srem = "SREM"
name_of sismember = "SISMEMBER"
name_of scard = "SCARD"
name_of unknown = ""

-- the commands whose arguments are all that follows the key
abbrev is_variadic : CommandType → Bool
is_variadic lpush = true
is_variadic sadd = true
is_variadic srem = true
is_variadic _ = false

-- A command that can be sent: of a known type, with the arguments of the type.
pub record IsSendable (t : CommandType) (args : List Bytes) : Type 0 where
  pub known : t ≢ unknown
  pub count : (needed t ≡ length args) ⊎ ((is_variadic t ≡ true) × (needed t ≤ length args))
  pub tokens : All IsToken args

exactly :
    {t : CommandType} {args : List Bytes}
    → is_variadic t ≡ false
    → IsSendable t args
    → needed t ≡ length args
exactly v h = elim h.count [ inl p ↦ p | inr (w, _) ↦ absurd (false≢true (sym v ∙ w)) ]

at_least : {t : CommandType} {args : List Bytes} → IsSendable t args → needed t ≤ length args
at_least h = elim h.count [ inl p ↦ omega arith | inr (_, q) ↦ q ]

-- the arguments of the command among the words behind its name
abbrev pub taken : CommandType → List Bytes → List Bytes
taken t args = if is_variadic t then args else take (needed t) args

abbrev Reads : CommandType → Bytes → List Bytes → Type 0
Reads t word args = parse_tokens (word ∷ args) ≡ command t (taken t args)

-- The number of arguments gives their shape.
with_one :
    (G : List Bytes → Type 0) (args : List Bytes)
    → 1 ≤ length args
    → ((a : Bytes) (rest : List Bytes) → G (a ∷ rest))
    → G args
with_one G [] p g = absurd (omega arith)
with_one G (a ∷ rest) p g = g a rest

with_two :
    (G : List Bytes → Type 0) (args : List Bytes)
    → 2 ≤ length args
    → ((a b : Bytes) (rest : List Bytes) → G (a ∷ b ∷ rest))
    → G args
with_two G [] p g = absurd (omega arith)
with_two G (a ∷ rest) p g = with_one (λ r. G (a ∷ r)) rest (omega arith) (g a)

with_three :
    (G : List Bytes → Type 0) (args : List Bytes)
    → 3 ≤ length args
    → ((a b c : Bytes) (rest : List Bytes) → G (a ∷ b ∷ c ∷ rest))
    → G args
with_three G [] p g = absurd (omega arith)
with_three G (a ∷ rest) p g = with_two (λ r. G (a ∷ r)) rest (omega arith) (g a)

pub parse_word :
    (t : CommandType) (word : Bytes) (args : List Bytes)
    → t ≢ unknown
    → map toupper word ≡ codes (name_of t)
    → needed t ≤ length args
    → Reads t word args
unfolding parse_tokens first_half second_half is_command bytes_eq
parse_word ping word args known e h = rw e refl
parse_word unknown word args known e h = absurd (known refl)
parse_word get word args known e h =
    with_one (Reads get word) args h (λ a rest. rw e (ground arith))
parse_word incr word args known e h =
    with_one (Reads incr word) args h (λ a rest. rw e (ground arith))
parse_word decr word args known e h =
    with_one (Reads decr word) args h (λ a rest. rw e (ground arith))
parse_word hgetall word args known e h =
    with_one (Reads hgetall word) args h (λ a rest. rw e (ground arith))
parse_word rpop word args known e h =
    with_one (Reads rpop word) args h (λ a rest. rw e (ground arith))
parse_word ttl word args known e h =
    with_one (Reads ttl word) args h (λ a rest. rw e (ground arith))
parse_word smembers word args known e h =
    with_one (Reads smembers word) args h (λ a rest. rw e (ground arith))
parse_word scard word args known e h =
    with_one (Reads scard word) args h (λ a rest. rw e (ground arith))
parse_word set word args known e h =
    with_two (Reads set word) args h (λ a b rest. rw e (ground arith))
parse_word incrby word args known e h =
    with_two (Reads incrby word) args h (λ a b rest. rw e (ground arith))
parse_word hget word args known e h =
    with_two (Reads hget word) args h (λ a b rest. rw e (ground arith))
parse_word expire word args known e h =
    with_two (Reads expire word) args h (λ a b rest. rw e (ground arith))
parse_word sismember word args known e h =
    with_two (Reads sismember word) args h (λ a b rest. rw e (ground arith))
parse_word lpush word args known e h =
    with_two (Reads lpush word) args h (λ a b rest. rw e (ground arith))
parse_word sadd word args known e h =
    with_two (Reads sadd word) args h (λ a b rest. rw e (ground arith))
parse_word srem word args known e h =
    with_two (Reads srem word) args h (λ a b rest. rw e (ground arith))
parse_word hset word args known e h =
    with_three (Reads hset word) args h (λ a b c rest. rw e (ground arith))
parse_word lrange word args known e h =
    with_three (Reads lrange word) args h (λ a b c rest. rw e (ground arith))

take_all : (n : ℕ) (args : List Bytes) → n ≡ length args → take n args ≡ args
take_all zero [] e = refl
take_all zero (a ∷ args) e = absurd (omega arith)
take_all (suc n) [] e = absurd (omega arith)
take_all (suc n) (a ∷ args) e = ap (λ r. a ∷ r) (take_all n args (omega arith))

taken_all : (t : CommandType) (args : List Bytes) → IsSendable t args → taken t args ≡ args
taken_all t args h = elim (Bool-cases (is_variadic t)) [
  | inl v ↦ rw v refl
  | inr v ↦ rw v (take_all (needed t) args (exactly v h))
]

-- A word that reads as the name of a command in any case of letters, followed by the arguments of
-- that command, all tokens and blanks between them, is parsed as the command with those arguments.
pub parse-join :
    (t : CommandType) (word : Bytes) (args : List Bytes)
    → IsToken word
    → map toupper word ≡ codes (name_of t)
    → IsSendable t args
    → parse (join (word ∷ args)) ≡ command t args
unfolding parse
parse-join t word args k e h =
    rw (tokenize-join (word ∷ args) (k, h.tokens))
      (parse_word t word args h.known e (at_least h) ∙ ap (command t) (taken_all t args h))
