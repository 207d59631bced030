-- ===== src/Prospects/Scores.antt =====
-- What the loops of src/prospect-discovery/fit-scoring.ts add up to.
use zex_platform.Base.{
  ℕ, ◌+◌, ◌-◌, ◌*◌, min, Text, ◌≡◌, refl, ap, inl, inr, Bool, true, false, not, ◌&&◌, ◌||◌, arith,
  List, [], ◌∷◌, ◌++◌, length, select, any, leb, Bool-cases, if◌then◌else◌,
}
use zex_platform.Store.{Polarity, Rule, Icp, IcpInput, FitReason, FitBand}
use zex_platform.Prospects.Fit.{
  minus, disqualify, Signals, Tally, includes_any, rule_matches, signal_of, is_empty,
  weigh_industry, weigh_size, weigh_geography, hits_disqualifier, weigh_disqualifiers, apply_rule,
  weigh_rules, tally, start, clamped, band_of, assess_icp_fit,
}

abbrev is_negative : Polarity → Bool
is_negative Polarity.negative = true
is_negative Polarity.positive = false

-- The points for what holds.
abbrev pub points : ℕ → Bool → ℕ
points n true = n
points n false = 0

snoc_not_empty : (l : List Text) (d : Text) → is_empty (l ++ (d ∷ [])) ≡ false
snoc_not_empty [] d = refl
snoc_not_empty (e ∷ l) d = refl

-- The points from one balance to a later one, and whether it was disqualified in between.
record Adds (t u : Tally) (gain loss : ℕ) (out : Bool) : Type 0 where
  added : u.added ≡ t.added + gain
  taken : u.taken ≡ t.taken + loss
  clean : is_empty u.disqualifiers ≡ (is_empty t.disqualifiers && not out)

Adds-same : (t : Tally) → Adds t t 0 0 false
Adds-same t = record { added = omega arith; taken = omega arith; clean = ground arith }

Adds-chain :
    (t u v : Tally) (g l g' l' g'' l'' : ℕ) (o o' : Bool)
    → Adds t u g l o
    → Adds u v g' l' o'
    → g'' ≡ g + g'
    → l'' ≡ l + l'
    → Adds t v g'' l'' (o || o')
Adds-chain t u v g l g' l' g'' l'' o o' a b eg el = record {
  added = omega (arith, a.added, b.added, eg);
  taken = omega (arith, a.taken, b.taken, el);
  clean = ground (arith, a.clean, b.clean);
}

module _ (lower : Text → Text) (at_most : Text → Text → Bool) (c : Signals) where
  -- A rule of the polarity that matches.
  abbrev pub matches : Bool → Rule → Bool
  matches negative r =
      rule_matches lower at_most r.operator (signal_of c r.about) r.value
      && (if negative then is_negative r.polarity else not (is_negative r.polarity))

  abbrev hits : Text → Bool
  hits d = hits_disqualifier lower at_most c d

  hit-Adds :
      (b : Bool) (r : FitReason) (d : Text) (t : Tally)
      → Adds t (if b then minus 40 r (disqualify d t) else t) 0 (points 40 b) b
  hit-Adds true r d t = record {
    added = omega arith;
    taken = refl;
    clean = ground (arith, snoc_not_empty t.disqualifiers d);
  }
  hit-Adds false r d t = Adds-same t

  count_hit :
      (d : Text) (ds : List Text)
      → 40 * length (select hits (d ∷ ds)) ≡ points 40 (hits d) + 40 * length (select hits ds)
  unfolding select
  count_hit d ds = ground arith

  disqualifiers-Adds :
      (ds : List Text) (t : Tally)
      → Adds t
          (weigh_disqualifiers lower at_most c ds t)
          0
          (40 * length (select hits ds))
          (any hits ds)
  unfolding weigh_disqualifiers select
  disqualifiers-Adds [] t = Adds-same t
  disqualifiers-Adds (d ∷ ds) t =
      Adds-chain t _ _ 0 _ 0 _ _ _ _ _ (hit-Adds (hits d) _ d t) (disqualifiers-Adds ds _) refl
        (count_hit d ds)

  rule-Adds :
      (b : Bool) (r : Rule) (k : Polarity) (t : Tally)
      → Adds t
          (if b then apply_rule lower at_most c r k t else t)
          (points 8 (b && not (is_negative k)))
          (points 25 (b && is_negative k))
          (b && is_negative k)
  unfolding apply_rule
  rule-Adds true r Polarity.positive t = record {
    added = refl;
    taken = omega arith;
    clean = ground arith;
  }
  rule-Adds true r Polarity.negative t = record {
    added = omega arith;
    taken = refl;
    clean = ground (arith, snoc_not_empty t.disqualifiers);
  }
  rule-Adds false r k t = Adds-same t

  count_rule :
      (n : ℕ) (negative : Bool) (r : Rule) (rs : List Rule)
      → n * length (select (matches negative) (r ∷ rs))
        ≡ points n (matches negative r) + n * length (select (matches negative) rs)
  unfolding select
  count_rule n negative r rs = elim (Bool-cases (matches negative r)) [
    | inl e ↦ rw e (omega arith)
    | inr e ↦ rw e (omega arith)
  ]

  rules-Adds :
      (rs : List Rule) (t : Tally)
      → Adds t
          (weigh_rules lower at_most c rs t)
          (8 * length (select (matches false) rs))
          (25 * length (select (matches true) rs))
          (any (matches true) rs)
  unfolding weigh_rules select
  rules-Adds [] t = Adds-same t
  rules-Adds (r ∷ rs) t =
      Adds-chain t _ _ _ _ _ _ _ _ _ _ (rule-Adds _ r r.polarity t) (rules-Adds rs _)
        (count_rule 8 false r rs) (count_rule 25 true r rs)

  abbrev industry_fits : Icp → Bool
  industry_fits icp = includes_any lower c.industry icp.industries

  abbrev size_fits : Icp → Bool
  size_fits icp = includes_any lower c.company_size icp.company_size

  abbrev geography_fits : Icp → Bool
  geography_fits icp = includes_any lower c.geography icp.geography

  industry-Adds :
      (icp : Icp) (t : Tally)
      → Adds t
          (weigh_industry lower at_most c icp t)
          (points 20 (industry_fits icp))
          (points 10 (not (industry_fits icp) && not (is_empty icp.industries)))
          false
  unfolding weigh_industry
  industry-Adds icp t = record { added = ground arith; taken = ground arith; clean = ground arith }

  size-Adds :
      (icp : Icp) (t : Tally)
      → Adds t (weigh_size lower at_most c icp t) (points 15 (size_fits icp)) 0 false
  unfolding weigh_size
  size-Adds icp t = record { added = ground arith; taken = ground arith; clean = ground arith }

  geography-Adds :
      (icp : Icp) (t : Tally)
      → Adds t (weigh_geography lower at_most c icp t) (points 10 (geography_fits icp)) 0 false
  unfolding weigh_geography
  geography-Adds icp t = record { added = ground arith; taken = ground arith; clean = ground arith }

  -- What speaks for a company, in points, and what speaks against it.
  abbrev pub merits : IcpInput → ℕ
  merits b =
      40
      + points 20 (industry_fits b.icp)
      + points 15 (size_fits b.icp)
      + points 10 (geography_fits b.icp)
      + 8 * length (select (matches false) b.rules)

  abbrev pub demerits : IcpInput → ℕ
  demerits b =
      points 10 (not (industry_fits b.icp) && not (is_empty b.icp.industries))
      + 40 * length (select hits b.icp.disqualifiers)
      + 25 * length (select (matches true) b.rules)

  abbrev pub is_out : IcpInput → Bool
  is_out b = any hits b.icp.disqualifiers || any (matches true) b.rules

  total :
      (b : IcpInput)
      → Adds
          (start lower at_most c)
          (tally lower at_most c b)
          (points 20 (industry_fits b.icp)
            + points 15 (size_fits b.icp)
            + points 10 (geography_fits b.icp)
            + 8 * length (select (matches false) b.rules))
          (demerits b)
          (is_out b)
  unfolding tally
  total b =
      Adds-chain _ _ _ _ _ _ _ _ _ false _ (industry-Adds b.icp _)
        (Adds-chain _ _ _ _ _ _ _ _ _ false _ (size-Adds b.icp _)
          (Adds-chain _ _ _ _ _ _ _ _ _ false _ (geography-Adds b.icp _)
            (Adds-chain _ _ _ _ _ _ _ _ _ _ _ (disqualifiers-Adds b.icp.disqualifiers _)
              (rules-Adds b.rules _) refl refl)
            refl refl)
          refl refl)
        (omega arith) (omega arith)

  band_lem :
      (ds : List Text) (n : ℕ) (out : Bool)
      → is_empty ds ≡ not out
      → band_of lower at_most c ds n ≡ (
          if out
          then FitBand.disqualified
          else if leb 75 n
          then FitBand.strong
          else if leb 55 n
          then FitBand.moderate
          else FitBand.weak)
  unfolding band_of
  band_lem [] n out h = ground (arith, h)
  band_lem (d ∷ ds) n out h = ground (arith, h)

  -- The score of a company is 40 points, 20 more for its industry, 15 for its size, 10 for its geography
  -- and 8 for each positive rule that matches, less 10 where the industry is not in a list that is not
  -- empty, 40 for each disqualifier that hits and 25 for each negative rule that matches, and at least 0
  -- and at most 100.
  pub score-assess_icp_fit :
      (b : IcpInput) → (assess_icp_fit lower at_most c b).score ≡ min 100 (merits b - demerits b)
  unfolding assess_icp_fit clamped
  score-assess_icp_fit b = let t = total b in ap (min 100) (omega (arith, t.added, t.taken))

  -- A company is disqualified where a disqualifier hits or a negative rule matches, whatever its score,
  -- and else strong from a score of 75, moderate from 55 and weak below.
  pub band-assess_icp_fit :
      (b : IcpInput)
      → let f = assess_icp_fit lower at_most c b in
        f.band ≡ (
          if is_out b
          then FitBand.disqualified
          else if leb 75 f.score
          then FitBand.strong
          else if leb 55 f.score
          then FitBand.moderate
          else FitBand.weak)
  unfolding assess_icp_fit
  band-assess_icp_fit b = band_lem _ _ (is_out b) (total b).clean
