-- ===== src/Pr/Reconcile/Newest.antt =====
-- The newest of the observed checks (src/pr/reconcile.ts).
use runmill.Base.{
  ◌≡◌, refl, Bool, true, false, List, [], ◌∷◌, some, keep, inl, inr, Bool-cases, arith, Member,
  some-inj,
}
use runmill.Pr.Reconcile.{RemoteCheck, no_earlier, latest, latest_from}

no_earlier_refl : (a : RemoteCheck) → no_earlier a a ≡ true
no_earlier_refl a = ground arith

no_earlier_trans :
    (a b c : RemoteCheck) → no_earlier a b ≡ true → no_earlier b c ≡ true → no_earlier a c ≡ true
no_earlier_trans a b c h g = ground arith

later_of : (a b : RemoteCheck) → no_earlier a b ≡ false → no_earlier b a ≡ true
later_of a b h = ground arith

-- `c` is one of the checks, and none of them completed after it.
pub record IsNewest (cs : List RemoteCheck) (c : RemoteCheck) : Type 0 where
  pub observed : Member c cs
  pub newest : (d : RemoteCheck) → Member d cs → no_earlier d c ≡ true

newer_second :
    (a b : RemoteCheck) (cs : List RemoteCheck) (c : RemoteCheck)
    → no_earlier a b ≡ true
    → IsNewest (b ∷ cs) c
    → IsNewest (a ∷ b ∷ cs) c
newer_second a b cs c later n = record { observed = inr n.observed; newest = each }
  where
    each : (d : RemoteCheck) → Member d (a ∷ b ∷ cs) → no_earlier d c ≡ true
    each d (inl e) = rw e (no_earlier_trans a b c later (n.newest b (inl refl)))
    each d (inr m) = n.newest d m

newer_first :
    (a b : RemoteCheck) (cs : List RemoteCheck) (c : RemoteCheck)
    → no_earlier a b ≡ false
    → IsNewest (a ∷ cs) c
    → IsNewest (a ∷ b ∷ cs) c
newer_first a b cs c earlier n = record { observed = there n.observed; newest = each }
  where
    there : Member c (a ∷ cs) → Member c (a ∷ b ∷ cs)
    there (inl e) = inl e
    there (inr m) = inr (inr m)

    each : (d : RemoteCheck) → Member d (a ∷ b ∷ cs) → no_earlier d c ≡ true
    each d (inl e) = n.newest d (inl e)
    each d (inr (inl e)) =
        rw e (no_earlier_trans b a c (later_of a b earlier) (n.newest a (inl refl)))
    each d (inr (inr m)) = n.newest d (inr m)

latest_from-IsNewest :
    (best : RemoteCheck) (cs : List RemoteCheck) → IsNewest (best ∷ cs) (latest_from best cs)
unfolding latest_from
latest_from-IsNewest best [] = record { observed = inl refl; newest = only }
  where
    only : (d : RemoteCheck) → Member d (best ∷ []) → no_earlier d best ≡ true
    only d (inl e) = rw e (no_earlier_refl best)
    only d (inr m) = absurd m
latest_from-IsNewest best (c ∷ cs) = elim (Bool-cases (no_earlier best c)) [
  | inl later ↦
      rw later (newer_second best c cs (latest_from c cs) later (latest_from-IsNewest c cs))
  | inr earlier ↦
      rw earlier
        (newer_first best c cs (latest_from best cs) earlier (latest_from-IsNewest best cs))
]

pub latest-IsNewest : (cs : List RemoteCheck) (c : RemoteCheck) → latest cs ≡ some c → IsNewest cs c
unfolding latest
latest-IsNewest [] c h = cc
latest-IsNewest (x ∷ xs) c h = rw⁻¹ (some-inj h) (latest_from-IsNewest x xs)

kept_here :
    {A : Type 0} (p : A → Bool) (a x : A) (xs : List A)
    → p x ≡ true
    → (Member a (keep p xs) → Member a xs × (p a ≡ true))
    → Member a (x ∷ keep p xs)
    → Member a (x ∷ xs) × (p a ≡ true)
kept_here p a x xs kept rest (inl e) = (inl e, rw e kept)
kept_here p a x xs kept rest (inr m) = let (n, t) = rest m in (inr n, t)

pub keep-Member :
    {A : Type 0} (p : A → Bool) (a : A) (xs : List A)
    → Member a (keep p xs)
    → Member a xs × (p a ≡ true)
keep-Member p a [] m = absurd m
keep-Member p a (x ∷ xs) m = elim (Bool-cases (p x)) [
  | inr out ↦ let (n, t) = keep-Member p a xs (rw out at m) in (inr n, t)
  | inl kept ↦ kept_here p a x xs kept (keep-Member p a xs) (rw kept at m)
]
