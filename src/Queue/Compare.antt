-- ===== src/Queue/Compare.antt =====
-- Three-way comparison as src/queue/ordering.ts writes it, and the laws of a comparison.
use runmill.Base.{
  ap, ℕ, ◌≡◌, ◌≢◌, refl, sym, ◌∙◌, List, [], ◌∷◌, Option, none, some, arith, inl, inr, ◌⊎◌,
}
pub use Prim.Native.Nat.{Ordering, compare}

-- The sign of a comparison, negated.
abbrev pub flip : Ordering → Ordering
flip Ordering.lt = Ordering.gt
flip Ordering.eq = Ordering.eq
flip Ordering.gt = Ordering.lt

-- `a || b` on comparison results: 0 is falsy.
infixr 3 ◌or◌
abbrev pub ◌or◌ : Ordering → Ordering → Ordering
Ordering.eq or b = b
a or b = a

-- `cmp` on sort keys: none is Number.POSITIVE_INFINITY.
abbrev pub cmp : Option ℕ → Option ℕ → Ordering
cmp none none = Ordering.eq
cmp none (some y) = Ordering.gt
cmp (some x) none = Ordering.lt
cmp (some x) (some y) = compare x y

-- `cmp` on texts, by their code units.
abbrev pub cmp_text : List ℕ → List ℕ → Ordering
cmp_text [] [] = Ordering.eq
cmp_text [] (y ∷ ys) = Ordering.lt
cmp_text (x ∷ xs) [] = Ordering.gt
cmp_text (x ∷ xs) (y ∷ ys) = compare x y or cmp_text xs ys

-- A total preorder given by its comparison.
pub record IsComparison {A : Type 0} (c : A → A → Ordering) : Type 0 where
  pub flips : (a b : A) → c b a ≡ flip (c a b)
  pub eq_same : (a b x : A) → c a b ≡ Ordering.eq → c a x ≡ c b x
  pub lt_trans : (a b x : A) → c a b ≡ Ordering.lt → c b x ≡ Ordering.lt → c a x ≡ Ordering.lt

Ordering-cases : (c : Ordering) → (c ≡ Ordering.lt) ⊎ ((c ≡ Ordering.eq) ⊎ (c ≡ Ordering.gt))
Ordering-cases Ordering.lt = inl refl
Ordering-cases Ordering.eq = inr (inl refl)
Ordering-cases Ordering.gt = inr (inr refl)

pub gt_or_not : (c : Ordering) → (c ≡ Ordering.gt) ⊎ (c ≢ Ordering.gt)
gt_or_not Ordering.lt = inr (λ h. cc)
gt_or_not Ordering.eq = inr (λ h. cc)
gt_or_not Ordering.gt = inl refl

module _ {A : Type 0} (c : A → A → Ordering) (l : IsComparison c) where
  pub eq_right : (a b x : A) → c b x ≡ Ordering.eq → c a b ≡ c a x
  eq_right a b x h = l.flips b a ∙ ap flip (l.eq_same b x a h) ∙ sym (l.flips x a)

  pub not_after_trans :
      (a b x : A) → c a b ≢ Ordering.gt → c b x ≢ Ordering.gt → c a x ≢ Ordering.gt
  not_after_trans a b x p q h = elim (Ordering-cases (c a b)) [
    | inr (inr gt) ↦ absurd (p gt)
    | inr (inl same) ↦ absurd (q (sym (l.eq_same a b x same) ∙ h))
    | inl lt ↦ elim (Ordering-cases (c b x)) [
      | inr (inr gt) ↦ absurd (q gt)
      | inr (inl same) ↦ absurd (p (eq_right a b x same ∙ h))
      | inl lt' ↦ let ax = l.lt_trans a b x lt lt' in absurd cc
    ]
  ]

  pub not_after_refl : (a : A) → c a a ≢ Ordering.gt
  not_after_refl a h = let f : Ordering.gt ≡ Ordering.lt = sym h ∙ l.flips a a ∙ ap flip h in cc

  pub not_after-both : (a b : A) → c a b ≢ Ordering.gt → c b a ≢ Ordering.gt → c a b ≡ Ordering.eq
  not_after-both a b p q = elim (Ordering-cases (c a b)) [
    | inr (inr gt) ↦ absurd (p gt)
    | inr (inl same) ↦ same
    | inl lt ↦ absurd (q (l.flips a b ∙ ap flip lt))
  ]

compare-flip : (m n : ℕ) → compare n m ≡ flip (compare m n)
compare-flip m n = ground arith

compare-same : (m n k : ℕ) → compare m n ≡ Ordering.eq → compare m k ≡ compare n k
compare-same m n k h = ground arith

compare_trans :
    (m n k : ℕ) → compare m n ≡ Ordering.lt → compare n k ≡ Ordering.lt → compare m k ≡ Ordering.lt
compare_trans m n k h g = ground arith

flip-or : (p q : Ordering) → flip (p or q) ≡ (flip p or flip q)
flip-or Ordering.lt q = refl
flip-or Ordering.eq q = refl
flip-or Ordering.gt q = refl

or-eq : (p q : Ordering) → (p or q) ≡ Ordering.eq → (p ≡ Ordering.eq) × (q ≡ Ordering.eq)
or-eq Ordering.lt q h = cc
or-eq Ordering.eq q h = (refl, h)
or-eq Ordering.gt q h = cc

or-lt :
    (p q : Ordering)
    → (p or q) ≡ Ordering.lt
    → (p ≡ Ordering.lt) ⊎ ((p ≡ Ordering.eq) × (q ≡ Ordering.lt))
or-lt Ordering.lt q h = inl refl
or-lt Ordering.eq q h = inr (refl, h)
or-lt Ordering.gt q h = cc

module _ {A : Type 0} where
  -- The comparison that a false option leaves.
  pub never-IsComparison : IsComparison {A = A} (λ a b. Ordering.eq)
  never-IsComparison = record {
    flips = λ a b. refl;
    eq_same = λ a b x h. refl;
    lt_trans = λ a b x h g. cc;
  }

  pub by-IsComparison :
      {B : Type 0} (c : B → B → Ordering) (f : A → B)
      → IsComparison c
      → IsComparison (λ a b. c (f a) (f b))
  by-IsComparison c f l = record {
    flips = λ a b. l.flips (f a) (f b);
    eq_same = λ a b x. l.eq_same (f a) (f b) (f x);
    lt_trans = λ a b x. l.lt_trans (f a) (f b) (f x);
  }

  module _ (c d : A → A → Ordering) (l : IsComparison c) (k : IsComparison d) where
    or_trans :
        (a b x : A)
        → (c a b or d a b) ≡ Ordering.lt
        → (c b x or d b x) ≡ Ordering.lt
        → (c a x or d a x) ≡ Ordering.lt
    or_trans a b x h g = elim (or-lt (c a b) (d a b) h) [
      | inl p ↦ elim (or-lt (c b x) (d b x) g) [
        | inl q ↦ rw (l.lt_trans a b x p q) refl
        | inr (q, _) ↦ rw (sym (eq_right c l a b x q) ∙ p) refl
      ]
      | inr (p, p') ↦ elim (or-lt (c b x) (d b x) g) [
        | inl q ↦ rw (l.eq_same a b x p ∙ q) refl
        | inr (q, q') ↦ rw (l.eq_same a b x p ∙ q) (k.lt_trans a b x p' q')
      ]
    ]

    pub or-IsComparison : IsComparison (λ a b. c a b or d a b)
    or-IsComparison = record {
      flips = λ a b. rw (l.flips a b, k.flips a b) (sym (flip-or (c a b) (d a b)));
      eq_same = λ a b x h.
          let (p, q) = or-eq (c a b) (d a b) h in rw (l.eq_same a b x p, k.eq_same a b x q) refl;
      lt_trans = or_trans;
    }

pub cmp-IsComparison : IsComparison cmp
cmp-IsComparison = record { flips = cmp-flip; eq_same = cmp-same; lt_trans = cmp-trans }
  where
    cmp-flip : (a b : Option ℕ) → cmp b a ≡ flip (cmp a b)
    cmp-flip none none = refl
    cmp-flip none (some y) = refl
    cmp-flip (some x) none = refl
    cmp-flip (some x) (some y) = compare-flip x y

    cmp-same : (a b x : Option ℕ) → cmp a b ≡ Ordering.eq → cmp a x ≡ cmp b x
    cmp-same none none x h = refl
    cmp-same none (some b) x h = cc
    cmp-same (some a) none x h = cc
    cmp-same (some a) (some b) none h = refl
    cmp-same (some a) (some b) (some x) h = compare-same a b x h

    cmp-trans :
        (a b x : Option ℕ) → cmp a b ≡ Ordering.lt → cmp b x ≡ Ordering.lt → cmp a x ≡ Ordering.lt
    cmp-trans none none x h g = cc
    cmp-trans none (some b) x h g = cc
    cmp-trans (some a) none none h g = cc
    cmp-trans (some a) none (some x) h g = cc
    cmp-trans (some a) (some b) none h g = refl
    cmp-trans (some a) (some b) (some x) h g = compare_trans a b x h g

text-flip : (a b : List ℕ) → cmp_text b a ≡ flip (cmp_text a b)
text-flip [] [] = refl
text-flip [] (y ∷ ys) = refl
text-flip (x ∷ xs) [] = refl
text-flip (x ∷ xs) (y ∷ ys) =
    rw (compare-flip x y, text-flip xs ys) (sym (flip-or (compare x y) (cmp_text xs ys)))

pub cmp_text-eq : (a b : List ℕ) → cmp_text a b ≡ Ordering.eq → a ≡ b
cmp_text-eq [] [] h = refl
cmp_text-eq [] (y ∷ ys) h = cc
cmp_text-eq (x ∷ xs) [] h = cc
cmp_text-eq (x ∷ xs) (y ∷ ys) h =
    let (p, q) = or-eq (compare x y) (cmp_text xs ys) h in
    let same : x ≡ y = ground arith in let rest = cmp_text-eq xs ys q in cc

text_trans :
    (a b x : List ℕ)
    → cmp_text a b ≡ Ordering.lt
    → cmp_text b x ≡ Ordering.lt
    → cmp_text a x ≡ Ordering.lt
text_trans [] [] x h g = cc
text_trans [] (b ∷ bs) [] h g = cc
text_trans [] (b ∷ bs) (x ∷ xs) h g = refl
text_trans (a ∷ zs) [] x h g = cc
text_trans (a ∷ zs) (b ∷ bs) [] h g = cc
text_trans (a ∷ zs) (b ∷ bs) (x ∷ xs) h g = elim (or-lt (compare a b) (cmp_text zs bs) h) [
  | inl p ↦ elim (or-lt (compare b x) (cmp_text bs xs) g) [
    | inl q ↦ rw (compare_trans a b x p q) refl
    | inr (q, _) ↦ let r : compare a x ≡ Ordering.lt = ground arith in rw r refl
  ]
  | inr (p, p') ↦ elim (or-lt (compare b x) (cmp_text bs xs) g) [
    | inl q ↦ rw (compare-same a b x p ∙ q) refl
    | inr (q, q') ↦ rw (compare-same a b x p ∙ q) (text_trans zs bs xs p' q')
  ]
]

pub text-IsComparison : IsComparison cmp_text
text-IsComparison = record {
  flips = text-flip;
  eq_same = λ a b x h. rw (cmp_text-eq a b h) refl;
  lt_trans = text_trans;
}
