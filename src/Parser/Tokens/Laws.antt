-- ===== src/Parser/Tokens/Laws.antt =====
-- What the token loop of Parser::parse (RediCraft-Server/src/parser.cpp) returns.
use redi_craft.Prelude.{
  ◌≡◌, refl, sym, ap, ◌∙◌, ◌≢◌, inl, inr, false, List, [], ◌∷◌, ◌++◌, append-nil, append_assoc,
  Bool-cases, All, All-append, Bytes, is_space,
}
use redi_craft.Parser.Tokens.{add_token, scan, tokenize}

-- no byte of the text is white space
abbrev pub HasNoSpace : Bytes → Type 0
HasNoSpace = All (λ c. is_space c ≡ false)

abbrev pub IsToken : Bytes → Type 0
IsToken t = HasNoSpace t × (t ≢ [])

-- tokens with single blanks between them
abbrev pub join : List Bytes → Bytes
join [] = []
join (t ∷ []) = t
join (t ∷ u ∷ ts) = t ++ (b' ' ∷ join (u ∷ ts))

scan-token :
    (t current rest : Bytes) → HasNoSpace t → scan current (t ++ rest) ≡ scan (current ++ t) rest
unfolding scan
scan-token [] current rest h = rw append-nil
scan-token (c ∷ t) current rest (hc, h) =
    rw hc (scan-token t (current ++ c ∷ []) rest h ∙ rw append_assoc)

scan-blank : (current s : Bytes) → scan current (b' ' ∷ s) ≡ add_token current (scan [] s)
unfolding scan is_space
scan-blank current s = refl

add_token_lem : (t : Bytes) (rest : List Bytes) → t ≢ [] → add_token t rest ≡ t ∷ rest
unfolding add_token
add_token_lem [] rest h = absurd (h refl)
add_token_lem (c ∷ t) rest h = refl

scan-join : (ts : List Bytes) → All IsToken ts → scan [] (join ts) ≡ ts
unfolding scan
scan-join [] h = refl
scan-join (t ∷ []) (h, _) =
    ap (scan []) (sym (append-nil t)) ∙ scan-token t [] [] h.0 ∙ add_token_lem t [] h.1
scan-join (t ∷ u ∷ ts) (h, hs) =
    scan-token t [] _ h.0
    ∙ scan-blank t _
    ∙ add_token_lem t _ h.1
    ∙ ap (◌∷◌ t) (scan-join (u ∷ ts) hs)

-- Tokens that are joined by blanks are read back.
pub tokenize-join : (ts : List Bytes) → All IsToken ts → tokenize (join ts) ≡ ts
unfolding tokenize
tokenize-join ts h = scan-join ts h

add_token-IsToken :
    (t : Bytes) (rest : List Bytes)
    → HasNoSpace t
    → All IsToken rest
    → All IsToken (add_token t rest)
unfolding add_token
add_token-IsToken [] rest h hs = hs
add_token-IsToken (c ∷ t) rest h hs = ((h, cc), hs)

scan-IsToken : (s current : Bytes) → HasNoSpace current → All IsToken (scan current s)
unfolding scan
scan-IsToken [] current h = add_token-IsToken current [] h tt
scan-IsToken (c ∷ s) current h = elim (Bool-cases (is_space c)) [
  | inl blank ↦ rw blank (add_token-IsToken current _ h (scan-IsToken s [] tt))
  | inr other ↦
      rw other (scan-IsToken s (current ++ c ∷ []) (All-append _ current (c ∷ []) h (other, tt)))
]

-- Whatever the text, a token is not empty and holds no white space.
pub tokenize-IsToken : (s : Bytes) → All IsToken (tokenize s)
unfolding tokenize
tokenize-IsToken s = scan-IsToken s [] tt
