-- ===== src/Workspace/Texts.antt =====
-- Texts as lists of code points, where src/workspace/path-scope.ts walks their characters.
use Prim.Native.Char.{code}
use runmill.Base.{
  ℕ, ◌≡◌, ◌↔◌, refl, ==_iff, &&-eq-true, Bool, true, false, ◌&&◌, ◌||◌, List, [], ◌∷◌, String, ◌==◌,
  if◌then◌else◌,
}

abbrev pub Text : Type 0
Text = List ℕ

abbrev pub codes : String → Text
codes String.[] = []
codes (String.◌∷◌ c s) = code c ∷ codes s

abbrev pub slash : ℕ
slash = 47

abbrev pub backslash : ℕ
backslash = 92

abbrev pub text_eq : Text → Text → Bool
text_eq [] [] = true
text_eq (a ∷ s) (b ∷ t) = a == b && text_eq s t
text_eq _ _ = false

pub text_eq_iff : (s t : Text) → (text_eq s t ≡ true) ↔ (s ≡ t)
text_eq_iff [] [] = (λ h. refl, λ h. refl)
text_eq_iff [] (b ∷ t) = (λ h. cc, λ h. cc)
text_eq_iff (a ∷ s) [] = (λ h. cc, λ h. cc)
text_eq_iff (a ∷ s) (b ∷ t) =
    let (to, from) = text_eq_iff s t in
    let (eq, eqb) = ==_iff a b in
    (
      λ h. let (x, y) = &&-eq-true (a == b) (text_eq s t) h in let p = eq x in let q = to y in cc,
      λ h. let p : a ≡ b = cc in let q : s ≡ t = cc in rw (eqb p, from q) refl,
    )

-- `text.includes(char)`
abbrev pub includes : ℕ → Text → Bool
includes c [] = false
includes c (a ∷ s) = a == c || includes c s

-- `text.startsWith(char)`
abbrev pub starts_with : ℕ → Text → Bool
starts_with c [] = false
starts_with c (a ∷ s) = a == c

-- `text.endsWith(char)`
abbrev pub ends_with : ℕ → Text → Bool
ends_with c [] = false
ends_with c (a ∷ []) = a == c
ends_with c (a ∷ b ∷ s) = ends_with c (b ∷ s)

-- `text.slice(1)` and `text.slice(0, -1)`
abbrev pub tail : Text → Text
tail [] = []
tail (a ∷ s) = s

abbrev pub init : Text → Text
init [] = []
init (a ∷ []) = []
init (a ∷ b ∷ s) = a ∷ init (b ∷ s)

-- `text.split("/")` with the first segment apart: it is there also for an empty text.
abbrev pub split_first : Text → Text × List Text
split_first [] = ([], [])
split_first (a ∷ s) =
    let (first, rest) = split_first s in
    if a == slash then ([], first ∷ rest) else (a ∷ first, rest)

abbrev pub split : Text → List Text
split s = let (first, rest) = split_first s in first ∷ rest
