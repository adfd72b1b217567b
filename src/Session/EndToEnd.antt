-- ===== src/Session/EndToEnd.antt =====
-- What a client reads back over the wire: the parser, the session and the storage together
-- (RediCraft-Server/src/session.cpp, parser.cpp, storage.cpp).
use redi_craft.Prelude.{
  ◌≡◌, refl, ap, inl, List, [], ◌∷◌, map, arith, if◌then◌else◌, Bytes, codes, bytes_eq, toupper,
}
use redi_craft.Parser.Tokens.Laws.{IsToken, join}
use redi_craft.Parser.{CommandType, Command, set, get}
use redi_craft.Parser.RoundTrip.{name_of, IsSendable, parse-join}
use redi_craft.Storage.{Storage}
use redi_craft.Session.Replies.{Clock, line, value_or_nil}
use redi_craft.Session.{respond, handle_command}
use redi_craft.Storage.Strings.Laws.{get-set}

handle_join :
    (c : Clock) (t : CommandType) (word : Bytes) (args : List Bytes) (s : Storage)
    → IsToken word
    → map toupper word ≡ codes (name_of t)
    → IsSendable t args
    → handle_command c (join (word ∷ args)) s ≡ respond c t args s
unfolding handle_command
handle_join c t word args s k e h =
    ap (λ (cmd : Command). respond c cmd.type cmd.args s) (parse-join t word args k e h)

-- After the line "SET k v", the line "GET j" is answered with v if j is k, and otherwise with what
-- it would have been answered before; k, v and j are tokens, and the words are in any case of letters.
pub get_after_set :
    (c c' : Clock) (set_word get_word k v j : Bytes) (s : Storage)
    → IsToken set_word
    → map toupper set_word ≡ codes "SET"
    → IsToken get_word
    → map toupper get_word ≡ codes "GET"
    → IsToken k
    → IsToken v
    → IsToken j
    → (handle_command c'
        (join (get_word ∷ j ∷ []))
        (handle_command c (join (set_word ∷ k ∷ v ∷ [])) s).1).0
      ≡ (if bytes_eq k j then line v else (handle_command c' (join (get_word ∷ j ∷ [])) s).0)
get_after_set c c' set_word get_word k v j s ts es tg eg tk tv tj =
    let sent : IsSendable set (k ∷ v ∷ []) = record {
      known = cc;
      count = inl refl;
      tokens = (tk, (tv, tt));
    } in
    let asked : IsSendable get (j ∷ []) = record {
      known = cc;
      count = inl refl;
      tokens = (tj, tt);
    } in
    rw
      (
        handle_join c set set_word (k ∷ v ∷ []) s ts es sent,
        handle_join c' get get_word (j ∷ []) s tg eg asked,
        handle_join c' get get_word (j ∷ []) (respond c set (k ∷ v ∷ []) s).1 tg eg asked,
      )
      (unfold respond value_or_nil in ground (arith, get-set c.at c'.at k v j s))
