-- ===== src/Resilience/Float.antt =====
-- The float64 arithmetic that breaker.go uses: conversion of an int, division and comparison. The
-- type stays abstract, with the facts of IEEE 754 that the breaker relies on.
use liveclass.Prelude.{ℕ, ◌*◌, ◌^◌, ◌<◌, ◌≡◌, refl, Bool, arith, leb, ltb, if◌then◌else◌, nat_beq}

pub record Float64 : Type 1 where
  pub F : Type 0
  pub of_int : ℕ → F
  pub div : F → F → F
  pub le : F → F → Bool
  pub lt : F → F → Bool
  -- A positive threshold is not reached by no failures at all.
  pub div-zero : (n : ℕ) → 0 < n → div (of_int 0) (of_int n) ≡ of_int 0
  -- An integer that float64 holds exactly, over itself.
  pub div-self : (n : ℕ) → 0 < n → n < 2 ^ 53 → div (of_int n) (of_int n) ≡ of_int 1

-- Fractions, as an instance: a numerator and a denominator, compared by their cross products.
abbrev pub normal : ℕ → ℕ → ℕ × ℕ
normal a b = if nat_beq a 0 then (0, 1) else if nat_beq a b then (1, 1) else (a, b)

pub normal-zero : (n : ℕ) → 0 < n → normal (0 * 1) (1 * n) ≡ (0, 1)
normal-zero n h = refl

pub normal_self : (n : ℕ) → 0 < n → n < 2 ^ 53 → normal (n * 1) (1 * n) ≡ (1, 1)
normal_self n h k = ground arith

abbrev pub fractions : Float64
fractions = record {
  F = ℕ × ℕ;
  of_int = λ n. (n, 1);
  div = λ (a, b) (c, d). normal (a * d) (b * c);
  le = λ (a, b) (c, d). leb (a * d) (c * b);
  lt = λ (a, b) (c, d). ltb (a * d) (c * b);
  div-zero = normal-zero;
  div-self = normal_self;
}
