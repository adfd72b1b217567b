-- ===== src/Parser/Arity.antt =====
-- Parser::parse (RediCraft-Server/src/parser.cpp) and the arguments that the session asks for.
use redi_craft.Prelude.{
  ℕ, zero, suc, ◌≤◌, ◌<◌, String, ◌≡◌, refl, true, List, [], ◌∷◌, map, arith, if_both, length, drop,
  length-drop, All, Bytes, toupper,
}
use redi_craft.Parser.Tokens.{tokenize}
use redi_craft.Parser.Tokens.Laws.{IsToken, tokenize-IsToken}
use redi_craft.Parser.{
  CommandType, Command, at, command, is_command, second_half, first_half, parse_tokens, parse, ping,
  set, get, incr, decr, incrby, hset, hget, hgetall, lpush, rpop, lrange, expire, ttl, sadd,
  smembers, srem, sismember, scard, unknown,
}

-- the number of arguments that the cases of Session::handle_command test for
abbrev pub needed : CommandType → ℕ
needed ping = 0
needed unknown = 0
needed set = 2
needed incrby = 2
needed hset = 3
needed hget = 2
needed lpush = 2
needed lrange = 3
needed sadd = 2
needed srem = 2
needed sismember = 2
needed expire = 2
needed _ = 1

-- A command has the arguments that its case needs, and they are tokens.
pub record IsReady (c : Command) : Type 0 where
  pub enough : needed c.type ≤ length c.args
  pub tokens : All IsToken c.args

at-IsToken : (ts : List Bytes) (i : ℕ) → All IsToken ts → i < length ts → IsToken (at ts i)
at-IsToken [] i h l = absurd (omega arith)
at-IsToken (t ∷ ts) zero h l = h.0
at-IsToken (t ∷ ts) (suc i) h l = at-IsToken ts i h.1 (omega arith)

drop-IsToken : (n : ℕ) (ts : List Bytes) → All IsToken ts → All IsToken (drop n ts)
drop-IsToken zero ts h = h
drop-IsToken (suc n) [] h = tt
drop-IsToken (suc n) (t ∷ ts) h = drop-IsToken n ts h.1

-- the test of an arm gives the number of tokens
is_command-le :
    (name : Bytes) (text : String) (ts : List Bytes) (n : ℕ)
    → is_command name text ts n ≡ true
    → n ≤ length ts
unfolding is_command
is_command-le name text ts n h = ground arith

module _ (ts : List Bytes) (h : All IsToken ts) where
  IsReady-none : (t : CommandType) → needed t ≡ 0 → IsReady (command t [])
  IsReady-none t e = record { enough = rw e (omega arith); tokens = tt }

  IsReady-one :
      (name : Bytes) (text : String) (t : CommandType)
      → needed t ≡ 1
      → is_command name text ts 2 ≡ true
      → IsReady (command t (at ts 1 ∷ []))
  IsReady-one name text t e p =
      let l = is_command-le name text ts 2 p in
      record { enough = rw e (omega arith); tokens = (at-IsToken ts 1 h (omega arith), tt) }

  IsReady-two :
      (name : Bytes) (text : String) (t : CommandType)
      → needed t ≡ 2
      → is_command name text ts 3 ≡ true
      → IsReady (command t (at ts 1 ∷ at ts 2 ∷ []))
  IsReady-two name text t e p =
      let l = is_command-le name text ts 3 p in
      record {
        enough = rw e (omega arith);
        tokens = (at-IsToken ts 1 h (omega arith), (at-IsToken ts 2 h (omega arith), tt));
      }

  IsReady-three :
      (name : Bytes) (text : String) (t : CommandType)
      → needed t ≡ 3
      → is_command name text ts 4 ≡ true
      → IsReady (command t (at ts 1 ∷ at ts 2 ∷ at ts 3 ∷ []))
  IsReady-three name text t e p =
      let l = is_command-le name text ts 4 p in
      record {
        enough = rw e (omega arith);
        tokens = (
          at-IsToken ts 1 h (omega arith),
          (at-IsToken ts 2 h (omega arith), (at-IsToken ts 3 h (omega arith), tt)),
        );
      }

  IsReady-more :
      (name : Bytes) (text : String) (t : CommandType)
      → needed t ≡ 2
      → is_command name text ts 3 ≡ true
      → IsReady (command t (at ts 1 ∷ drop 2 ts))
  IsReady-more name text t e p =
      let l = is_command-le name text ts 3 p in
      record {
        enough = rw e (omega (arith, length-drop 2 ts));
        tokens = (at-IsToken ts 1 h (omega arith), drop-IsToken 2 ts h);
      }

  second_half-IsReady : (name : Bytes) → IsReady (second_half name ts)
  unfolding second_half
  second_half-IsReady name = if_both IsReady _ _ _ (IsReady-three name "LRANGE" lrange refl) (
      if_both IsReady _ _ _ (IsReady-two name "EXPIRE" expire refl) (
        if_both IsReady _ _ _ (IsReady-one name "TTL" ttl refl) (
          if_both IsReady _ _ _ (IsReady-more name "SADD" sadd refl) (
            if_both IsReady _ _ _ (IsReady-one name "SMEMBERS" smembers refl) (
              if_both IsReady _ _ _ (IsReady-more name "SREM" srem refl) (
                if_both IsReady _ _ _ (IsReady-two name "SISMEMBER" sismember refl) (
                  if_both IsReady _ _ _ (IsReady-one name "SCARD" scard refl)
                    (IsReady-none unknown refl))))))))

  first_half-IsReady : (name : Bytes) → IsReady (first_half name ts)
  unfolding first_half
  first_half-IsReady name =
      if_both IsReady _ _ _ (λ _. IsReady-none ping refl)
        (if_both IsReady _ _ _ (IsReady-two name "SET" set refl) (
          if_both IsReady _ _ _ (IsReady-one name "GET" get refl) (
            if_both IsReady _ _ _ (IsReady-one name "INCR" incr refl) (
              if_both IsReady _ _ _ (IsReady-one name "DECR" decr refl) (
                if_both IsReady _ _ _ (IsReady-two name "INCRBY" incrby refl) (
                  if_both IsReady _ _ _ (IsReady-three name "HSET" hset refl) (
                    if_both IsReady _ _ _ (IsReady-two name "HGET" hget refl) (
                      if_both IsReady _ _ _ (IsReady-one name "HGETALL" hgetall refl) (
                        if_both IsReady _ _ _ (IsReady-more name "LPUSH" lpush refl) (
                          if_both IsReady _ _ _ (IsReady-one name "RPOP" rpop refl)
                            (second_half-IsReady name)))))))))))

parse_tokens-IsReady : (ts : List Bytes) → All IsToken ts → IsReady (parse_tokens ts)
unfolding parse_tokens
parse_tokens-IsReady [] h = record { enough = omega arith; tokens = tt }
parse_tokens-IsReady (t ∷ ts) h = first_half-IsReady (t ∷ ts) h (map toupper t)

-- Whatever the text, the command has as many arguments as the session's case for its type asks for,
-- so that the session's messages about missing arguments are never sent; and every argument is a
-- token: not empty, with no white space.
pub parse-IsReady : (text : Bytes) → IsReady (parse text)
unfolding parse
parse-IsReady text = parse_tokens-IsReady (tokenize text) (tokenize-IsToken text)
