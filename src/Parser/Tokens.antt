-- ===== src/Parser/Tokens.antt =====
-- The loop `while (iss >> token)` of Parser::parse (RediCraft-Server/src/parser.cpp): the maximal
-- runs of bytes that are no white space.
pub mod Laws
use redi_craft.Prelude.{◌≡◌, refl, List, [], ◌∷◌, ◌++◌, if◌then◌else◌, Bytes, codes, is_space}

-- a token in front of the later ones, unless it is empty
unfoldable pub add_token : Bytes → List Bytes → List Bytes
add_token [] rest = rest
add_token (c ∷ cs) rest = (c ∷ cs) ∷ rest

-- `current` is the token read so far
unfoldable pub scan : Bytes → Bytes → List Bytes
unfolding add_token
scan current [] = add_token current []
scan current (c ∷ s) =
    let rest = scan (if is_space c then [] else current ++ c ∷ []) s in
    if is_space c then add_token current rest else rest

unfoldable pub tokenize : Bytes → List Bytes
unfolding scan is_space
tokenize s = scan [] s

splits : tokenize (codes "  set k  v ") ≡ codes "set" ∷ codes "k" ∷ codes "v" ∷ []
unfolding tokenize
splits = refl
