-- ===== src/Scoring/Choice.antt =====
-- Which rule gives a score.
use zex_platform.Base.{
  Text, ◌≡◌, ◌⊎◌, refl, ap, subst, inl, inr, Bool, true, false, ◌&&◌, none, some, arith, List, [],
  ◌∷◌, All, In, select, find_first, Bool-cases, Option-cases,
}
use zex_platform.Base.Ints.{ℤ, leb_ℤ, ◌≤ℤ◌}
use zex_platform.Base.Members.{select_yes, select_no, In-select}
use zex_platform.Store.{Lead, Enrichment, ScoringRule, Db, Env}
use zex_platform.Scoring.Filters.{matches_filters}
use zex_platform.Scoring.Engine.{Score, score, score_by, insert, by_priority, is_active_rule}

-- No row of the list has a higher priority.
abbrev Below : ℤ → List ScoringRule → Type 0
Below n l = All (λ r. r.priority ≤ℤ n) l

abbrev Sorted : List ScoringRule → Type 0
Sorted [] = Unit
Sorted (r ∷ rs) = Below r.priority rs × Sorted rs

Below-more : (m n : ℤ) (l : List ScoringRule) → m ≤ℤ n → Below m l → Below n l
Below-more m n [] h b = tt
Below-more m n (x ∷ l) h (a, b) = (omega (arith, a, h), Below-more m n l h b)

insert-Below :
    (n : ℤ) (r : ScoringRule) (l : List ScoringRule)
    → r.priority ≤ℤ n
    → Below n l
    → Below n (insert r l)
unfolding insert
insert-Below n r [] h b = (h, tt)
insert-Below n r (x ∷ l) h (a, b) = elim (Bool-cases (leb_ℤ x.priority r.priority)) [
  | inl e ↦ rw e (h, (a, b))
  | inr e ↦ rw e (a, insert-Below n r l h b)
]

insert-Sorted : (r : ScoringRule) (l : List ScoringRule) → Sorted l → Sorted (insert r l)
unfolding insert
insert-Sorted r [] s = (tt, tt)
insert-Sorted r (x ∷ l) (b, s) = elim (Bool-cases (leb_ℤ x.priority r.priority)) [
  | inl e ↦
      rw e ((ground (arith, e), Below-more x.priority r.priority l (ground (arith, e)) b), (b, s))
  | inr e ↦ rw e (insert-Below x.priority r l (ground (arith, e)) b, insert-Sorted r l s)
]

by_priority-Sorted : (l : List ScoringRule) → Sorted (by_priority l)
unfolding by_priority
by_priority-Sorted [] = tt
by_priority-Sorted (r ∷ l) = insert-Sorted r (by_priority l) (by_priority-Sorted l)

insert_here :
    (r x : ScoringRule) (l : List ScoringRule)
    → leb_ℤ x.priority r.priority ≡ true
    → insert r (x ∷ l) ≡ r ∷ x ∷ l
unfolding insert
insert_here r x l e = rw e refl

insert_later :
    (r x : ScoringRule) (l : List ScoringRule)
    → leb_ℤ x.priority r.priority ≡ false
    → insert r (x ∷ l) ≡ x ∷ insert r l
unfolding insert
insert_later r x l e = rw e refl

insert_nil : (r : ScoringRule) → insert r [] ≡ r ∷ []
unfolding insert
insert_nil r = refl

past : (a r x : ScoringRule) (l : List ScoringRule) → (a ≡ x) ⊎ In a (r ∷ l) → In a (r ∷ x ∷ l)
past a r x l (inl same) = inr (inl same)
past a r x l (inr (inl same)) = inl same
past a r x l (inr (inr h)) = inr (inr h)

In-insert : (a r : ScoringRule) (l : List ScoringRule) → In a (insert r l) → In a (r ∷ l)
In-insert a r [] h = subst (In a) (insert_nil r) h
In-insert a r (x ∷ l) h = elim (Bool-cases (leb_ℤ x.priority r.priority)) [
  | inl e ↦ subst (In a) (insert_here r x l e) h
  | inr e ↦ elim (subst (In a) (insert_later r x l e) h) [
    | inl same ↦ inr (inl same)
    | inr there ↦ past a r x l (inr (In-insert a r l there))
  ]
]

In-by_priority : (a : ScoringRule) (l : List ScoringRule) → In a (by_priority l) → In a l
unfolding by_priority
In-by_priority a [] h = h
In-by_priority a (r ∷ l) h = elim (In-insert a r (by_priority l) h) [
  | inl same ↦ inl same
  | inr there ↦ inr (In-by_priority a l there)
]

module _ (P : ScoringRule → Type 0) where
  All-insert : (r : ScoringRule) (l : List ScoringRule) → All P (insert r l) → P r × All P l
  All-insert r [] h = subst (All P) (insert_nil r) h
  All-insert r (x ∷ l) h = elim (Bool-cases (leb_ℤ x.priority r.priority)) [
    | inl e ↦ subst (All P) (insert_here r x l e) h
    | inr e ↦
        let (here, rest) = subst (All P) (insert_later r x l e) h in
        let (first, others) = All-insert r l rest in (first, (here, others))
  ]

  All-by_priority : (l : List ScoringRule) → All P (by_priority l) → All P l
  unfolding by_priority
  All-by_priority [] h = tt
  All-by_priority (r ∷ l) h =
      let (here, rest) = All-insert r (by_priority l) h in (here, All-by_priority l rest)

  All-select :
      (q : ScoringRule → Bool) (l : List ScoringRule)
      → All P (select q l)
      → All (λ x. q x ≡ true → P x) l
  All-select q [] h = tt
  All-select q (x ∷ l) h = elim (Bool-cases (q x)) [
    | inl e ↦
        let (here, rest) = subst (All P) (select_yes q x l e) h in (λ _. here, All-select q l rest)
    | inr e ↦ (λ t. ground (arith, t, e), All-select q l (subst (All P) (select_no q x l e) h))
  ]

module _ (p : ScoringRule → Bool) where
  -- The first rule of a sorted list that matches.
  record First (l : List ScoringRule) (r : ScoringRule) : Type 0 where
    matches : p r ≡ true
    there : In r l
    highest : All (λ x. p x ≡ true → x.priority ≤ℤ r.priority) l

  Below-highest :
      (n : ℤ) (l : List ScoringRule) → Below n l → All (λ x. p x ≡ true → x.priority ≤ℤ n) l
  Below-highest n [] b = tt
  Below-highest n (x ∷ l) (a, b) = (λ _. a, Below-highest n l b)

  first : (l : List ScoringRule) (r : ScoringRule) → Sorted l → find_first p l ≡ some r → First l r
  unfolding find_first
  first [] r s h = ground arith
  first (x ∷ l) r (b, s) h = elim (Bool-cases (p x)) [
    | inl e ↦ subst (First (x ∷ l)) (ground (arith, h, e)) (record {
      matches = e;
      there = inl refl;
      highest = (λ _. omega arith, Below-highest x.priority l b);
    })
    | inr e ↦
        let f = first l r s (ground (arith, h, e)) in
        record {
          matches = f.matches;
          there = inr f.there;
          highest = (λ t. ground (arith, t, e), f.highest);
        }
  ]

  nothing : (l : List ScoringRule) → find_first p l ≡ none → All (λ x. p x ≡ false) l
  unfolding find_first
  nothing [] h = tt
  nothing (x ∷ l) h = elim (Bool-cases (p x)) [
    | inl e ↦ ground (arith, h, e)
    | inr e ↦ (e, nothing l (ground (arith, h, e)))
  ]

-- The rules of the tenant that are enabled and whose filters match.
abbrev pub applies : Env → Text → Enrichment → ScoringRule → Bool
applies env tenant e r = is_active_rule tenant r && matches_filters env.at_most e r.filters

-- The rule that gave a score.
pub record Chosen (env : Env) (tenant : Text) (p : Lead) (e : Enrichment) (rules : List ScoringRule)
    (s : Score) : Type 0 where
  pub rule : ScoringRule
  pub there : In rule rules
  pub fits : applies env tenant e rule ≡ true
  pub highest : All (λ x. applies env tenant e x ≡ true → x.priority ≤ℤ rule.priority) rules
  pub gives : s ≡ score_by env p e (some rule)

module _ (q m : ScoringRule → Bool) where
  both : (x : ScoringRule) (P : Type 0) → (q x ≡ true → m x ≡ true → P) → (q x && m x) ≡ true → P
  both x P h t = h (ground (arith, t)) (ground (arith, t))

  both_highest :
      (n : ℤ) (l : List ScoringRule)
      → All (λ x. q x ≡ true → m x ≡ true → x.priority ≤ℤ n) l
      → All (λ x. (q x && m x) ≡ true → x.priority ≤ℤ n) l
  both_highest n [] h = tt
  both_highest n (x ∷ l) (a, h) = (both x _ a, both_highest n l h)

  both_none :
      (l : List ScoringRule)
      → All (λ x. q x ≡ true → m x ≡ false) l
      → All (λ x. (q x && m x) ≡ false) l
  both_none [] h = tt
  both_none (x ∷ l) (a, h) = (ground (arith, a), both_none l h)

-- A score comes from a rule of the tenant that is enabled, whose filters match, and whose priority no
-- other such rule exceeds; where there is no such rule it comes from the default weights.
pub score-Chosen :
    (env : Env) (tenant : Text) (p : Lead) (e : Enrichment) (db : Db)
    → let s = score env tenant p e db in
      (All (λ r. applies env tenant e r ≡ false) db.scoring_rules × (s ≡ score_by env p e none))
      ⊎ Chosen env tenant p e db.scoring_rules s
unfolding score
score-Chosen env tenant p e db = elim (Option-cases (find_first m sorted)) [
  | inl no_rule ↦ inl (
    both_none q m db.scoring_rules (
        All-select _ q db.scoring_rules
          (All-by_priority _ (select q db.scoring_rules) (nothing m sorted no_rule))),
    ap (score_by env p e) no_rule,
  )
  | inr (r, found) ↦
      let f = first m sorted r (by_priority-Sorted (select q db.scoring_rules)) found in
      let (deep, active) =
        In-select q r db.scoring_rules (In-by_priority r (select q db.scoring_rules) f.there) in
      inr (record {
        rule = r;
        there = deep;
        fits = ground (arith, active, f.matches);
        highest = both_highest q m r.priority db.scoring_rules (
            All-select _ q db.scoring_rules
              (All-by_priority _ (select q db.scoring_rules) f.highest));
        gives = ap (score_by env p e) found;
      })
]
  where
    q : ScoringRule → Bool
    q = is_active_rule tenant

    m : ScoringRule → Bool
    m r = matches_filters env.at_most e r.filters

    sorted : List ScoringRule
    sorted = by_priority (select q db.scoring_rules)
