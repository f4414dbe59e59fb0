-- ===== src/Base/Prefix.antt =====
-- Texts with a prefix of one letter and a colon, as the code tags the keys of its maps.
use Prim.Native.Nat.{ℕ}
use Prim.Native.Char.{Char, code}
use Prim.Native.String.{String, [], ◌∷◌, ◌++◌}
use Prim.Native.String.append
use mathlib.Core.Path.{◌≡◌, sym, ap, ◌∙◌}
use mathlib.Core.Logic.{◌≢◌}

abbrev first : String → ℕ
first [] = 0
first (c ∷ s) = code c

abbrev rest : String → String
rest [] = []
rest (c ∷ s) = s

pub tag_inj : (p : Char) (a b : String) → (p ∷ ":") ++ a ≡ (p ∷ ":") ++ b → a ≡ b
tag_inj p a b e =
    let t = append.cons p ":" a in
    let u = append.cons p ":" b in
    let inner = ap rest (sym t ∙ e ∙ u) in
    let t' = append.cons ":" [] a in
    let u' = append.cons ":" [] b in
    sym (append.nil a) ∙ ap rest (sym t' ∙ inner ∙ u') ∙ append.nil b

pub tags_differ : (p q : Char) (a b : String) → code p ≢ code q → (p ∷ ":") ++ a ≢ (q ∷ ":") ++ b
tags_differ p q a b h e = h (ap first (sym (append.cons p ":" a) ∙ e ∙ append.cons q ":" b))
