-- ===== src/Server/Decoded.antt =====
-- The listings that a server answers, read back by a client (RediCraft-Server/src/server.cpp,
-- session.cpp, storage.cpp).
use redi_craft.Prelude.{◌≡◌, false, [], ◌∷◌, arith, Bytes, is_space}
use redi_craft.Prelude.Int.{ℤ, IsInt64}
use redi_craft.Number.{to_string}
use redi_craft.Number.RoundTrip.{to_string-All, stoll-to_string}
use redi_craft.Parser.{hgetall, lrange, smembers}
use redi_craft.Parser.Tokens.Laws.{HasNoSpace}
use redi_craft.Storage.{init}
use redi_craft.Storage.Invariant.{IsClosed}
use redi_craft.Storage.Invariant.Results.{hgetall-Entries, lrange-All, smembers-Entries}
use redi_craft.Persistence.OneLine.{init-IsStoreOf}
use redi_craft.Session.Replies.{Clock}
use redi_craft.Session.{respond}
use redi_craft.Session.Decode.{
  answer_lines, collect, value_of, field_of, member_of, names, fields_text-decode,
  values_text-decode, members_text-decode,
}
use redi_craft.Server.Clients.{Service, Reach, Reach-IsStoreOf}
use redi_craft.Storage.Hashes
use redi_craft.Storage.Lists
use redi_craft.Storage.Sets

HasNoSpace-IsClosed : IsClosed HasNoSpace
unfolding is_space
HasNoSpace-IsClosed = record {
  empty = tt;
  printed = to_string-All (λ c. is_space c ≡ false) (ground arith) (λ d h. ground arith);
}

-- At a server that starts empty, whatever its clients have done: a client reads back, from what
-- HGETALL, LRANGE with two 64-bit indices, and SMEMBERS answer, the fields with their values, the
-- values of the range, and the members, in the order in which the storage returns them. It takes the
-- lines at their "\r\n", a field at ": ", and a value at ") ".
pub listings_decode :
    (w : Service) (run : Reach (record { sessions = []; storage = init }) w) (c : Clock) (k : Bytes)
    (i j : ℤ)
    → IsInt64 i
    → IsInt64 j
    → (collect field_of (answer_lines (respond c hgetall (k ∷ []) w.storage).0)
        ≡ (Hashes.hgetall c.at k w.storage).0)
      × (collect value_of
            (answer_lines (respond c lrange (k ∷ to_string i ∷ to_string j ∷ []) w.storage).0)
          ≡ (Lists.lrange c.at k i j w.storage).0)
      × (collect member_of (answer_lines (respond c smembers (k ∷ []) w.storage).0)
          ≡ names (Sets.smembers c.at k w.storage).0)
unfolding respond
listings_decode w run c k i j hi hj =
    let held = Reach-IsStoreOf HasNoSpace-IsClosed (λ t h. h.0) run (init-IsStoreOf HasNoSpace) in
    (
      fields_text-decode _ (hgetall-Entries c.at k w.storage held),
      rw (stoll-to_string i hi, stoll-to_string j hj)
          (values_text-decode _ (lrange-All c.at k w.storage held i j)),
      members_text-decode _ (smembers-Entries c.at k w.storage held),
    )
