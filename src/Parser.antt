-- ===== src/Parser.antt =====
-- Parser::parse (RediCraft-Server/src/parser.cpp) and its types (include/parser.h).
pub mod Tokens
pub mod Arity
pub mod RoundTrip
pub mod Meaning
use redi_craft.Prelude.{
  ℕ, String, Bool, ◌&&◌, List, [], ◌∷◌, map, leb, if◌then◌else◌, length, get_or, drop, Bytes, codes,
  bytes_eq, toupper,
}
use redi_craft.Parser.Tokens.{tokenize}

pub data CommandType : Type 0 where
  ping set get incr decr incrby hset hget hgetall lpush : CommandType
  rpop lrange expire ttl sadd smembers srem sismember scard unknown : CommandType

pub record Command : Type 0 where
  pub type : CommandType
  pub args : List Bytes

-- tokens[i], which every caller guards by the number of tokens
abbrev pub at : List Bytes → ℕ → Bytes
at tokens i = get_or tokens i []

abbrev pub command : CommandType → List Bytes → Command
command t args = record { type = t; args = args }

-- `command == name && tokens.size() >= n`
unfoldable pub is_command : Bytes → String → List Bytes → ℕ → Bool
is_command name text tokens n = bytes_eq name (codes text) && leb n (length tokens)

-- the chain of tests on the upper-case name, from LRANGE on
unfoldable pub second_half : Bytes → List Bytes → Command
second_half name tokens =
    if is_command name "LRANGE" tokens 4
    then command lrange (at tokens 1 ∷ at tokens 2 ∷ at tokens 3 ∷ [])
    else if is_command name "EXPIRE" tokens 3
    then command expire (at tokens 1 ∷ at tokens 2 ∷ [])
    else if is_command name "TTL" tokens 2
    then command ttl (at tokens 1 ∷ [])
    else if is_command name "SADD" tokens 3
    then command sadd (at tokens 1 ∷ drop 2 tokens)
    else if is_command name "SMEMBERS" tokens 2
    then command smembers (at tokens 1 ∷ [])
    else if is_command name "SREM" tokens 3
    then command srem (at tokens 1 ∷ drop 2 tokens)
    else if is_command name "SISMEMBER" tokens 3
    then command sismember (at tokens 1 ∷ at tokens 2 ∷ [])
    else if is_command name "SCARD" tokens 2
    then command scard (at tokens 1 ∷ [])
    else command unknown []

-- the chain of tests up to RPOP
unfoldable pub first_half : Bytes → List Bytes → Command
first_half name tokens =
    if bytes_eq name (codes "PING")
    then command ping []
    else if is_command name "SET" tokens 3
    then command set (at tokens 1 ∷ at tokens 2 ∷ [])
    else if is_command name "GET" tokens 2
    then command get (at tokens 1 ∷ [])
    else if is_command name "INCR" tokens 2
    then command incr (at tokens 1 ∷ [])
    else if is_command name "DECR" tokens 2
    then command decr (at tokens 1 ∷ [])
    else if is_command name "INCRBY" tokens 3
    then command incrby (at tokens 1 ∷ at tokens 2 ∷ [])
    else if is_command name "HSET" tokens 4
    then command hset (at tokens 1 ∷ at tokens 2 ∷ at tokens 3 ∷ [])
    else if is_command name "HGET" tokens 3
    then command hget (at tokens 1 ∷ at tokens 2 ∷ [])
    else if is_command name "HGETALL" tokens 2
    then command hgetall (at tokens 1 ∷ [])
    else if is_command name "LPUSH" tokens 3
    then command lpush (at tokens 1 ∷ drop 2 tokens)
    else if is_command name "RPOP" tokens 2
    then command rpop (at tokens 1 ∷ [])
    else second_half name tokens

unfoldable pub parse_tokens : List Bytes → Command
parse_tokens [] = command unknown []
parse_tokens (name ∷ rest) = first_half (map toupper name) (name ∷ rest)

unfoldable pub parse : Bytes → Command
parse input = parse_tokens (tokenize input)
