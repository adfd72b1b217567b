-- ===== src/Parser/Meaning.antt =====
-- What every text means: Parser::parse (RediCraft-Server/src/parser.cpp) against the names of the
-- commands and the numbers of their arguments.
use mathlib.Core.Path.{subst}
use redi_craft.Prelude.{
  suc, ◌≤◌, ◌≡◌, refl, sym, ap, ◌∙◌, ◌≢◌, ◌↔◌, true, List, [], ◌∷◌, map, arith, if_both, length,
  take, drop, Bytes, codes, bytes_eq, bytes_eq_iff, toupper,
}
use redi_craft.Parser.Tokens.{tokenize}
use redi_craft.Parser.{
  CommandType, Command, at, command, is_command, second_half, first_half, parse_tokens, parse, ping,
  set, get, incr, decr, incrby, hset, hget, hgetall, lpush, rpop, lrange, expire, ttl, sadd,
  smembers, srem, sismember, scard, unknown,
}
use redi_craft.Parser.Arity.{needed}
use redi_craft.Parser.RoundTrip.{name_of, taken, parse_word}

-- The words are the name of the command, in any case of letters, and at least as many arguments as
-- it needs; of the words behind the name, `args` are those that it takes.
abbrev pub Spells : CommandType → List Bytes → List Bytes → Type 0
Spells t args [] = ⊥
Spells t args (word ∷ rest) =
    (map toupper word ≡ codes (name_of t)) × (needed t ≤ length rest) × (args ≡ taken t rest)

module _ (name word : Bytes) where
  -- What a known command says of the words that it was made of.
  abbrev IsMadeOf : List Bytes → Command → Type 0
  IsMadeOf rest c =
      c.type ≢ unknown
      → (name ≡ codes (name_of c.type))
        × (needed c.type ≤ length rest)
        × (c.args ≡ taken c.type rest)

  arm :
      (t : CommandType) (rest args : List Bytes)
      → (needed t ≤ length rest → args ≡ taken t rest)
      → is_command name (name_of t) (word ∷ rest) (suc (needed t)) ≡ true
      → IsMadeOf rest (command t args)
  unfolding is_command
  arm t rest args make e known =
      let same : bytes_eq name (codes (name_of t)) ≡ true = ground arith in
      let enough : needed t ≤ length rest = ground arith in
      ((bytes_eq_iff name (codes (name_of t))).0 same, enough, make enough)

  arm_ping :
      (rest : List Bytes) → bytes_eq name (codes "PING") ≡ true → IsMadeOf rest (command ping [])
  arm_ping rest e known = ((bytes_eq_iff name (codes "PING")).0 e, omega arith, refl)

  last_arm : (rest : List Bytes) → IsMadeOf rest (command unknown [])
  last_arm rest known = absurd (known refl)

  at_one : (rest : List Bytes) → 1 ≤ length rest → at (word ∷ rest) 1 ∷ [] ≡ take 1 rest
  at_one [] h = absurd (omega arith)
  at_one (a ∷ rest) h = refl

  at_two :
      (rest : List Bytes)
      → 2 ≤ length rest
      → at (word ∷ rest) 1 ∷ at (word ∷ rest) 2 ∷ [] ≡ take 2 rest
  at_two [] h = absurd (omega arith)
  at_two (a ∷ []) h = absurd (omega arith)
  at_two (a ∷ b ∷ rest) h = refl

  at_three :
      (rest : List Bytes)
      → 3 ≤ length rest
      → at (word ∷ rest) 1 ∷ at (word ∷ rest) 2 ∷ at (word ∷ rest) 3 ∷ [] ≡ take 3 rest
  at_three [] h = absurd (omega arith)
  at_three (a ∷ []) h = absurd (omega arith)
  at_three (a ∷ b ∷ []) h = absurd (omega arith)
  at_three (a ∷ b ∷ c ∷ rest) h = refl

  at_more : (rest : List Bytes) → 2 ≤ length rest → at (word ∷ rest) 1 ∷ drop 2 (word ∷ rest) ≡ rest
  at_more [] h = absurd (omega arith)
  at_more (a ∷ rest) h = refl

  second_half-IsMadeOf : (rest : List Bytes) → IsMadeOf rest (second_half name (word ∷ rest))
  unfolding second_half
  second_half-IsMadeOf rest = if_both (IsMadeOf rest) _ _ _ (arm lrange rest _ (at_three rest)) (
      if_both (IsMadeOf rest) _ _ _ (arm expire rest _ (at_two rest)) (
        if_both (IsMadeOf rest) _ _ _ (arm ttl rest _ (at_one rest)) (
          if_both (IsMadeOf rest) _ _ _ (arm sadd rest _ (at_more rest)) (
            if_both (IsMadeOf rest) _ _ _ (arm smembers rest _ (at_one rest)) (
              if_both (IsMadeOf rest) _ _ _ (arm srem rest _ (at_more rest)) (
                if_both (IsMadeOf rest) _ _ _ (arm sismember rest _ (at_two rest)) (
                  if_both (IsMadeOf rest) _ _ _ (arm scard rest _ (at_one rest))
                    (last_arm rest))))))))

  first_half-IsMadeOf : (rest : List Bytes) → IsMadeOf rest (first_half name (word ∷ rest))
  unfolding first_half
  first_half-IsMadeOf rest = if_both (IsMadeOf rest) _ _ _ (arm_ping rest) (
      if_both (IsMadeOf rest) _ _ _ (arm set rest _ (at_two rest)) (
        if_both (IsMadeOf rest) _ _ _ (arm get rest _ (at_one rest)) (
          if_both (IsMadeOf rest) _ _ _ (arm incr rest _ (at_one rest)) (
            if_both (IsMadeOf rest) _ _ _ (arm decr rest _ (at_one rest)) (
              if_both (IsMadeOf rest) _ _ _ (arm incrby rest _ (at_two rest)) (
                if_both (IsMadeOf rest) _ _ _ (arm hset rest _ (at_three rest)) (
                  if_both (IsMadeOf rest) _ _ _ (arm hget rest _ (at_two rest)) (
                    if_both (IsMadeOf rest) _ _ _ (arm hgetall rest _ (at_one rest)) (
                      if_both (IsMadeOf rest) _ _ _ (arm lpush rest _ (at_more rest)) (
                        if_both (IsMadeOf rest) _ _ _ (arm rpop rest _ (at_one rest))
                          (second_half-IsMadeOf rest)))))))))))

made_of :
    (t : CommandType) (words args : List Bytes)
    → t ≢ unknown
    → parse_tokens words ≡ command t args
    → Spells t args words
unfolding parse_tokens
made_of t [] args known e =
    let p : unknown ≡ t = ap (λ (c : Command). c.type) e in absurd (known (sym p))
made_of t (word ∷ rest) args known e =
    subst (λ c. IsMadeOf (map toupper word) word rest c) e
      (first_half-IsMadeOf (map toupper word) word rest) known

-- A text is parsed as a known command with some arguments exactly if its first token is the name of
-- the command in any case of letters, behind it stand at least as many tokens as the command needs,
-- and the arguments are those that it takes: all of them for LPUSH, SADD and SREM, and the first ones,
-- as many as it needs, for the others.
pub parse_iff :
    (t : CommandType) (text : Bytes) (args : List Bytes)
    → t ≢ unknown
    → (parse text ≡ command t args) ↔ Spells t args (tokenize text)
unfolding parse
parse_iff t text args known = (made_of t (tokenize text) args known, spelled (tokenize text))
  where
    spelled : (words : List Bytes) → Spells t args words → parse_tokens words ≡ command t args
    spelled [] h = absurd h
    spelled (word ∷ rest) (name, enough, same) =
        parse_word t word rest known name enough ∙ ap (command t) (sym same)
