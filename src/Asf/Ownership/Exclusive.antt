-- ===== src/Asf/Ownership/Exclusive.antt =====
-- One live owner to a repository: what claims keep, and what heartbeats may break
-- (src/state/store.ts).
use runmill.Base.{
  texts, ℕ, ◌≡◌, ◌≤◌, refl, sym, ap, true, false, List, [], ◌∷◌, map, some, String, returned, arith,
  inl, inr, ◌∙◌, any, Bool-cases, str_eq, str_eq_iff,
}
use mathlib.Core.Bool.{false≢true}
use runmill.Asf.Phase.{is_terminal_run_event_phase}
use runmill.Asf.Ownership.Table.{Run, get, put, get-put_self, get-put_ne, run_id-get}
use runmill.Asf.Ownership.{
  Claim, Claimed, claim_asf_run, heartbeat_asf_run, holds, is_live, live_owners, same_repo,
  same_codes, lower, codes,
}
use runmill.Asf.Ownership.Claims.{Granted, owned_by, claim-Granted, get-claim}

-- No two different runs whose owners are live at `t` are of one repository.
pub record IsExclusive (t : ℕ) (runs : List Run) : Type 0 where
  pub apart :
      (i j : String) (a b : Run)
      → str_eq i j ≡ false
      → get i runs ≡ some a
      → get j runs ≡ some b
      → is_live t a ≡ true
      → is_live t b ≡ true
      → same_repo a.repo b.repo ≡ false

same_codes_comm : (xs ys : List ℕ) → same_codes xs ys ≡ same_codes ys xs
same_codes_comm [] [] = refl
same_codes_comm [] (y ∷ ys) = refl
same_codes_comm (x ∷ xs) [] = refl
same_codes_comm (x ∷ xs) (y ∷ ys) = ground (arith, same_codes_comm xs ys)

same_repo_comm : (a b : String) → same_repo a b ≡ same_repo b a
unfolding same_repo
same_repo_comm a b = same_codes_comm (map lower (codes a)) (map lower (codes b))

is_live_mono : (t u : ℕ) (r : Run) → t ≤ u → is_live u r ≡ true → is_live t r ≡ true
unfolding is_live
is_live_mono t u r h live = ground arith

-- A live owner of another run is among those that a claim looks at.
alone-apart :
    (c : Claim) (repo : String) (runs : List Run) (j : String) (b : Run)
    → any (λ o. same_repo o.repo repo) (live_owners c runs) ≡ false
    → get j runs ≡ some b
    → str_eq c.run_id j ≡ false
    → is_live c.stale_before b ≡ true
    → same_repo b.repo repo ≡ false
unfolding live_owners get
alone-apart c repo [] j b alone found other live = cc
alone-apart c repo (x ∷ xs) j b alone found other live = grind (texts, alone-apart c repo xs j b)

module _ (c : Claim) (at : ℕ) (runs : List Run) (n : Claimed) (after : List Run)
    (k : Granted c at runs n after) (t : ℕ) (later : c.stale_before ≤ t) where
  -- The claimed run against another one.
  claimed-apart :
      (j : String) (b : Run)
      → str_eq c.run_id j ≡ false
      → get j after ≡ some b
      → is_live t b ≡ true
      → same_repo b.repo k.row.repo ≡ false
  claimed-apart j b other found live =
      let there = get-claim c at runs n after k j in
      alone-apart c k.row.repo runs j b k.alone (ground (arith, there)) other
        (is_live_mono c.stale_before t b later live)

  claimed_row :
      (i : String) (a : Run)
      → str_eq c.run_id i ≡ true
      → get i after ≡ some a
      → a ≡ owned_by c at k.fence k.row
  claimed_row i a mine found = ground (arith, get-claim c at runs n after k i)

  claimed-repo :
      (i : String) (a : Run) → str_eq c.run_id i ≡ true → get i after ≡ some a → a.repo ≡ k.row.repo
  claimed-repo i a mine found = ap (λ (x : Run). x.repo) (claimed_row i a mine found)

  granted-IsExclusive : IsExclusive t runs → IsExclusive t after
  granted-IsExclusive x = record {
    apart = λ i j a b other fi fj li lj.
        let ti = get-claim c at runs n after k i in
        let tj = get-claim c at runs n after k j in
        elim (Bool-cases (str_eq c.run_id i)) [
          | inl ei ↦ rw (claimed-repo i a ei fi) (
              same_repo_comm k.row.repo b.repo
              ∙ claimed-apart j b (rw ((str_eq_iff c.run_id i).0 ei) other) fj lj)
          | inr ni ↦ elim (Bool-cases (str_eq c.run_id j)) [
            | inl ej ↦ rw (claimed-repo j b ej fj) (claimed-apart i a ni fi li)
            | inr nj ↦ x.apart i j a b other (ground (arith, ti)) (ground (arith, tj)) li lj
          ]
        ];
  }

-- A granted claim keeps one live owner to a repository, for every instant from the claim's
-- staleness bound on.
pub claim-IsExclusive :
    (c : Claim) (at : ℕ) (runs : List Run) (n : Claimed) (after : List Run) (t : ℕ)
    → claim_asf_run c at runs ≡ returned (some n, after)
    → c.stale_before ≤ t
    → IsExclusive t runs
    → IsExclusive t after
claim-IsExclusive c at runs n after t h later x =
    granted-IsExclusive c at runs n after (claim-Granted c at runs n after h) t later x

-- A heartbeat of an owner that had gone stale, while another run of the repository got a live owner,
-- is accepted all the same, and the repository then has two live owners.
pub stale_heartbeat-not-IsExclusive :
    (id owner : String) (g at t : ℕ) (runs : List Run) (r : Run) (other : String) (b : Run)
    → get id runs ≡ some r
    → holds owner g r ≡ true
    → is_terminal_run_event_phase r.state ≡ false
    → str_eq id other ≡ false
    → get other runs ≡ some b
    → is_live t b ≡ true
    → same_repo r.repo b.repo ≡ true
    → t ≤ at
    → (after : List Run) × (heartbeat_asf_run id owner g at runs ≡ returned after)
      × ¬ (IsExclusive t after)
unfolding heartbeat_asf_run is_live
stale_heartbeat-not-IsExclusive id owner g at t runs r other b found mine open_run apart there live
      same fresh =
    let w : Run = record r { heartbeat_at = some at } in
    let named = run_id-get id runs r found in
    (
      put w runs,
      rw found (ground arith),
      λ x.
          let clash =
            x.apart id other w b apart (get-put_self w id runs r found named)
              (get-put_ne w other runs (rw named apart) ∙ there) (ground arith) live in
          false≢true (sym clash ∙ same),
    )
