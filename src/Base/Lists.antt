-- ===== src/Base/Lists.antt =====
-- Lists measured by native numbers, Boolean quantifiers, and predicates by recursion.
use Prim.Native.Nat.{ℕ, zero, suc, ◌+◌}
use mathlib.Core.Path.{◌≡◌, refl, sym, subst}
use mathlib.Core.Logic.{◌⊎◌, inl, inr}
use mathlib.Core.Bool.{Bool, true, false, ◌&&◌, ◌||◌}
use mathlib.Core.Option.{Option, none, some}
use mathlib.Core.List.{List, [], ◌∷◌, ◌++◌}
use native.Mathlib.Omega.{arith}
use runmill.Base.Tests.{if◌then◌else◌, &&-eq-true, Bool-cases}

module _ {ℓ} {A : Type ℓ} where
  abbrev pub length : List A → ℕ
  length [] = 0
  length (x ∷ xs) = suc (length xs)

  -- `xs.some(p)` and `xs.every(p)`.
  abbrev pub any : (A → Bool) → List A → Bool
  any p [] = false
  any p (x ∷ xs) = p x || any p xs

  abbrev pub all : (A → Bool) → List A → Bool
  all p [] = true
  all p (x ∷ xs) = p x && all p xs

  -- `xs.filter(p)` and `xs.find(p)`.
  abbrev pub keep : (A → Bool) → List A → List A
  keep p [] = []
  keep p (x ∷ xs) = let rest = keep p xs in if p x then x ∷ rest else rest

  abbrev pub find : (A → Bool) → List A → Option A
  find p [] = none
  find p (x ∷ xs) = if p x then some x else find p xs

  pub length-append : (xs ys : List A) → length (xs ++ ys) ≡ length xs + length ys
  length-append [] ys = omega arith
  length-append (x ∷ xs) ys = omega (arith, length-append xs ys)

module _ {ℓ} {A : Type ℓ} where
  abbrev pub get_elem? : List A → ℕ → Option A
  get_elem? [] i = none
  get_elem? (x ∷ xs) zero = some x
  get_elem? (x ∷ xs) (suc i) = get_elem? xs i

  -- What `every` has tested holds at each position.
  pub all-get_elem? :
      (p : A → Bool) (xs : List A) (i : ℕ) (x : A)
      → all p xs ≡ true
      → get_elem? xs i ≡ some x
      → p x ≡ true
  all-get_elem? p [] i x h e = cc
  all-get_elem? p (y ∷ ys) zero x h e = ground arith
  all-get_elem? p (y ∷ ys) (suc i) x h e =
      all-get_elem? p ys i x (&&-eq-true (p y) (all p ys) h).1 e

  pub any-exists : (p : A → Bool) (xs : List A) → any p xs ≡ true → (x : A) × (p x ≡ true)
  any-exists p [] h = cc
  any-exists p (x ∷ xs) h = elim (Bool-cases (p x)) [
    | inl e ↦ (x, e)
    | inr e ↦ any-exists p xs (ground arith)
  ]

  pub some-inj : {a b : A} → some a ≡ some b → a ≡ b
  some-inj h = cc

-- Membership with its position kept, and a predicate that tactics read as a tuple.
module _ {A : Type 0} where
  abbrev pub Member : A → List A → Type 0
  Member a [] = ⊥
  Member a (x ∷ xs) = (a ≡ x) ⊎ Member a xs

  pub all-Member : (p : A → Bool) (a : A) (xs : List A) → all p xs ≡ true → Member a xs → p a ≡ true
  all-Member p a [] h m = absurd m
  all-Member p a (x ∷ xs) h (inl e) = ground arith
  all-Member p a (x ∷ xs) h (inr m) = all-Member p a xs (&&-eq-true (p x) (all p xs) h).1 m

module _ {A : Type 0} (p : A → Bool) where
  pub find-Member : (a : A) (xs : List A) → find p xs ≡ some a → Member a xs × (p a ≡ true)
  find-Member a [] h = cc
  find-Member a (x ∷ xs) h = elim (Bool-cases (p x)) [
    | inl e ↦ let same : x ≡ a = some-inj (rw e at h) in (inl (sym same), rw (← same) e)
    | inr e ↦ let (m, t) = find-Member a xs (rw e at h) in (inr m, t)
  ]

  pub find-none : (a : A) (xs : List A) → find p xs ≡ none → Member a xs → p a ≡ false
  find-none a [] h m = absurd m
  find-none a (x ∷ xs) h m = elim (Bool-cases (p x)) [
    | inl e ↦ absurd (cc (rw e at h))
    | inr e ↦ elim m [ inl same ↦ rw same e | inr later ↦ find-none a xs (rw e at h) later ]
  ]

  pub find-none_made : (xs : List A) → ((a : A) → Member a xs → p a ≡ false) → find p xs ≡ none
  find-none_made [] h = refl
  find-none_made (x ∷ xs) h = rw (h x (inl refl)) (find-none_made xs (λ a m. h a (inr m)))

  pub any-Member : (xs : List A) → any p xs ≡ true → (a : A) × Member a xs × (p a ≡ true)
  any-Member [] h = cc
  any-Member (x ∷ xs) h = elim (Bool-cases (p x)) [
    | inl e ↦ (x, inl refl, e)
    | inr e ↦ let (a, m, t) = any-Member xs (rw e at h) in (a, inr m, t)
  ]

  pub Member-any : (a : A) (xs : List A) → Member a xs → p a ≡ true → any p xs ≡ true
  Member-any a [] m t = absurd m
  Member-any a (x ∷ xs) (inl same) t = rw (← same, t) refl
  Member-any a (x ∷ xs) (inr later) t = let rest = Member-any a xs later t in ground arith

  pub keep-nil : (a : A) (xs : List A) → keep p xs ≡ [] → Member a xs → p a ≡ false
  keep-nil a [] h m = absurd m
  keep-nil a (x ∷ xs) h m = elim (Bool-cases (p x)) [
    | inl e ↦ absurd (cc (rw e at h))
    | inr e ↦ elim m [ inl same ↦ rw same e | inr later ↦ keep-nil a xs (rw e at h) later ]
  ]

  pub Member-keep : (a : A) (xs : List A) → Member a xs → p a ≡ true → Member a (keep p xs)
  Member-keep a [] m t = absurd m
  Member-keep a (x ∷ xs) (inl same) t = rw (← same, t) (inl refl)
  Member-keep a (x ∷ xs) (inr later) t =
      let rest = Member-keep a xs later t in
      elim (Bool-cases (p x)) [ inl e ↦ rw e (inr rest) | inr e ↦ rw e rest ]

  pub nil-keep : (xs : List A) → ((a : A) → Member a xs → p a ≡ false) → keep p xs ≡ []
  nil-keep [] h = refl
  nil-keep (x ∷ xs) h = rw (h x (inl refl)) (nil-keep xs (λ a m. h a (inr m)))

  pub any-false : (xs : List A) → ((a : A) → Member a xs → p a ≡ false) → any p xs ≡ false
  any-false [] h = refl
  any-false (x ∷ xs) h = rw (h x (inl refl)) (any-false xs (λ a m. h a (inr m)))

  pub false-any : (a : A) (xs : List A) → any p xs ≡ false → Member a xs → p a ≡ false
  false-any a [] h m = absurd m
  false-any a (x ∷ xs) h m = elim (Bool-cases (p x)) [
    | inl e ↦ absurd (cc (rw e at h))
    | inr e ↦ elim m [ inl same ↦ rw same e | inr later ↦ false-any a xs (rw e at h) later ]
  ]

abbrev pub All {ℓ κ} : {A : Type ℓ} → (A → Type κ) → List A → Type κ
All P [] = Unit
All P (x ∷ xs) = P x × All P xs

pub All-Member : {A : Type 0} (P : A → Type 0) (a : A) (xs : List A) → All P xs → Member a xs → P a
All-Member P a [] h m = absurd m
All-Member P a (x ∷ xs) h (inl same) = subst P (sym same) h.0
All-Member P a (x ∷ xs) h (inr later) = All-Member P a xs h.1 later

pub All-append_both :
    {A : Type 0} (P : A → Type 0) (xs ys : List A) → All P (xs ++ ys) → All P xs × All P ys
All-append_both P [] ys h = (tt, h)
All-append_both P (x ∷ xs) ys h =
    let (first, second) = All-append_both P xs ys h.1 in ((h.0, first), second)
