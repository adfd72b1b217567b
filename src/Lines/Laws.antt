-- ===== src/Lines/Laws.antt =====
-- Reading back lines and the parts of a line.
use redi_craft.Prelude.{
  ℕ, ◌≡◌, refl, ap, ◌∙◌, ◌≢◌, Bool, true, false, some, List, [], ◌∷◌, ◌++◌, append-nil,
  append_assoc, arith, ◌==◌, if◌then◌else◌, All, Bytes,
}
use redi_craft.Lines.{lines_from, lines, cut, unlines}

-- The byte does not occur in the text.
abbrev pub Lacks : ℕ → Bytes → Type 0
Lacks b = All (λ c. c ≢ b)

unfoldable pub lacks : ℕ → Bytes → Bool
lacks b [] = true
lacks b (c ∷ s) = if c == b then false else lacks b s

pub lacks-Lacks : (b : ℕ) (s : Bytes) → lacks b s ≡ true → Lacks b s
unfolding lacks
lacks-Lacks b [] h = tt
lacks-Lacks b (c ∷ s) h = ground (arith, lacks-Lacks b s)

lines_from-append :
    (l current rest : Bytes)
    → Lacks 10 l
    → lines_from current (l ++ (10 ∷ rest)) ≡ (current ++ l) ∷ lines_from [] rest
unfolding lines_from
lines_from-append [] [] rest h = refl
lines_from-append [] (d ∷ current) rest h = rw append-nil
lines_from-append (c ∷ l) [] rest (hc, h) = ground (arith, lines_from-append l (c ∷ []) rest h)
lines_from-append (c ∷ l) (d ∷ current) rest (hc, h) = ground (
  arith,
  lines_from-append l ((d ∷ current) ++ c ∷ []) rest h,
  append_assoc (d ∷ current) (c ∷ []) l,
)

-- A line that ends in a newline is read as that line.
pub lines-append : (l rest : Bytes) → Lacks 10 l → lines (l ++ (10 ∷ rest)) ≡ l ∷ lines rest
unfolding lines
lines-append l rest h = lines_from-append l [] rest h

pub cut-append :
    (b : ℕ) (before after : Bytes)
    → Lacks b before
    → cut b (before ++ (b ∷ after)) ≡ some (before, after)
unfolding cut
cut-append b [] after h = ground arith
cut-append b (c ∷ before) after (hc, h) = ground (arith, cut-append b before after h)

-- A file of lines reads as these lines.
pub lines-unlines : (ls : List Bytes) → All (Lacks 10) ls → lines (unlines ls) ≡ ls
unfolding unlines lines
lines-unlines [] h = refl
lines-unlines (l ∷ ls) (hl, h) =
    lines-append l (unlines ls) hl ∙ ap (λ t. l ∷ t) (lines-unlines ls h)
