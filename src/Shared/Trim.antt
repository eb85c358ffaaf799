-- ===== src/Shared/Trim.antt =====
-- White space round a text, of ASCII.
use Prim.Native.Nat.{ℕ}
use mathlib.Core.Path.{◌≡◌, refl, ap, sym, subst, ◌∙◌}
use mathlib.Core.Bool.{Bool, false, ◌&&◌, ◌||◌}
use mathlib.Core.List.{List, [], ◌∷◌, reverse, reverse-cons, reverse-reverse}
use intellibiz.Shared.Tests.{eqb, leb, if◌then◌else◌}
use intellibiz.Shared.Lists.{All, All-append}
use intellibiz.Shared.Text.{Text}

-- `\s`
abbrev pub is_space : ℕ → Bool
is_space c = eqb c 32 || (leb 9 c && leb c 13)

unfoldable pub trim_start : Text → Text
trim_start [] = []
trim_start (c ∷ s) = let rest = trim_start s in if is_space c then rest else c ∷ s

-- `s.trim()`
unfoldable pub trim : Text → Text
unfolding trim_start
trim s = reverse (trim_start (reverse (trim_start s)))

-- No white space in the text
abbrev pub Solid : Text → Type 0
Solid s = All (λ c. is_space c ≡ false) s

trim_start-Solid : (s : Text) → Solid s → trim_start s ≡ s
unfolding trim_start
trim_start-Solid [] h = refl
trim_start-Solid (c ∷ s) h = rw h.0 refl

All-reverse {ℓ κ} : {A : Type ℓ} (P : A → Type κ) (xs : List A) → All P xs → All P (reverse xs)
All-reverse P [] h = tt
All-reverse P (x ∷ xs) h =
    subst (All P) (sym (reverse-cons x xs))
      (All-append P (reverse xs) (x ∷ []) (All-reverse P xs h.1) (h.0, tt))

pub trim-Solid : (s : Text) → Solid s → trim s ≡ s
unfolding trim
trim-Solid s h =
    ap (λ t. reverse (trim_start (reverse t))) (trim_start-Solid s h)
    ∙ ap reverse (trim_start-Solid (reverse s) (All-reverse (λ c. is_space c ≡ false) s h))
    ∙ reverse-reverse s
