-- ===== src/Base/Decimals.antt =====
-- `String(n)` of a whole number.
use Prim.Native.Nat.{ℕ, zero, suc, ◌+◌, ◌*◌, ◌-◌, ◌/◌, ◌%◌, ◌<◌, ◌≤◌}
use mathlib.Core.Path.{◌≡◌, ap, ◌∙◌}
use mathlib.Core.List.{[], ◌∷◌}
use mathlib.Core.Logic.{inl, inr}
use native.Mathlib.Omega.{arith}
use zex_platform.Base.Tests.{if◌then◌else◌, leb, Bool-cases}
use zex_platform.Base.Texts.{Text}

-- The digits of the number in front of a text.
digits : ℕ → ℕ → Text → Text
digits zero n acc = acc
digits (suc fuel) n acc =
    let rest = digits fuel (n / 10) ((b'0' + n % 10) ∷ acc) in
    if leb n 9 then (b'0' + n % 10) ∷ acc else rest

unfoldable pub decimal : ℕ → Text
unfolding digits
decimal n = digits (suc n) n []

-- The number that a text of digits denotes, after a number in front.
abbrev pub read : ℕ → Text → ℕ
read n [] = n
read n (c ∷ s) = read (10 * n + (c - b'0')) s

read-digits : (fuel n : ℕ) (acc : Text) → n < fuel → read 0 (digits fuel n acc) ≡ read n acc
unfolding digits
read-digits zero n acc h = absurd (omega arith)
read-digits (suc fuel) n acc h = elim (Bool-cases (leb n 9)) [
  | inl e ↦ rw e (ap (λ k. read k acc) (digit n (ground (arith, e))))
  | inr e ↦ rw e (
      read-digits fuel (n / 10) ((b'0' + n % 10) ∷ acc) (ground (arith, e, h))
      ∙ ap (λ k. read k acc) (omega arith))
]
  where
    digit : (n : ℕ) → n ≤ 9 → 10 * 0 + (b'0' + n % 10 - b'0') ≡ n
    digit n h = omega arith

-- A number that is written out reads as itself.
pub read-decimal : (n : ℕ) → read 0 (decimal n) ≡ n
unfolding decimal
read-decimal n = read-digits (suc n) n [] (omega arith)
