-- ===== src/Server/Typed.antt =====
-- The types of the answers of a server that starts empty (RediCraft-Server/src/server.cpp,
-- session.cpp).
use redi_craft.Prelude.{List, [], ◌∷◌, Bytes}
use redi_craft.Parser.{parse}
use redi_craft.Storage.{Storage}
use redi_craft.Session.Types.{IsAnswerTo}
use redi_craft.Spec.Refines.{Calls}

-- One answer to each command, of its type.
abbrev pub AreAnswersTo : Calls → List Bytes → Type 0
AreAnswersTo [] [] = Unit
AreAnswersTo ((c, text) ∷ rest) (b ∷ bs) = IsAnswerTo (parse text).type b × AreAnswersTo rest bs
AreAnswersTo _ _ = ⊥
