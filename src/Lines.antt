-- ===== src/Lines.antt =====
-- The text handling that Config::load (RediCraft-Server/src/config.cpp) and
-- PersistenceManager::loadFromFile (src/persistence.cpp) share: std::getline over a file, and
-- std::string::find of one byte with the two substr calls around it.
pub mod Laws
use redi_craft.Prelude.{ℕ, Option, none, some, List, [], ◌∷◌, ◌++◌, ◌==◌, if◌then◌else◌, Bytes}

-- the lines that getline returns, behind the bytes of the line read so far; a file's end makes a
-- line only of bytes that were read
unfoldable pub lines_from : Bytes → Bytes → List Bytes
lines_from [] [] = []
lines_from (c ∷ cs) [] = (c ∷ cs) ∷ []
lines_from current (c ∷ s) =
    let rest = lines_from (if c == 10 then [] else current ++ c ∷ []) s in
    if c == 10 then current ∷ rest else rest

unfoldable pub lines : Bytes → List Bytes
unfolding lines_from
lines s = lines_from [] s

-- what stands before and after the first byte `b`; `none` is npos
unfoldable pub cut : ℕ → Bytes → Option (Bytes × Bytes)
cut b [] = none
cut b (c ∷ s) =
    let rest = cut b s in
    if c == b
    then some ([], s)
    else (elim rest [ none ↦ none | some (before, after) ↦ some (c ∷ before, after) ])

-- the text of a file of lines, each with its newline
unfoldable pub unlines : List Bytes → Bytes
unlines [] = []
unlines (l ∷ ls) = l ++ (10 ∷ unlines ls)
