-- ===== src/Prelude/Keys.antt =====
-- Equality tests as an interface, and tables: association lists keyed by such a type.
use Prim.Native.Nat.{ℕ}
use Prim.Native.String.{String}
use mathlib.Core.Path.{◌≡◌, refl, sym, ap, ◌∙◌, subst}
use mathlib.Core.Logic.{◌↔◌, ◌≢◌, ◌⊎◌, inl, inr}
use mathlib.Core.Bool.{Bool, true}
use mathlib.Core.List.{List, [], ◌∷◌}
use mathlib.Core.Option.{Option, none, some}
use native.Mathlib.Omega.{arith}
use text.Mathlib.Text.{◌==◌ as str_eq}
use text.Mathlib.TextEquality.{eq_iff}
use liveclass.Prelude.Tests.{nat_beq, nat_beq_iff, Bool-cases, if◌then◌else◌}
use liveclass.Prelude.Lists.{All}
use liveclass.Prelude.Int.{ℤ, beq_ℤ, beq_ℤ_iff, pos, ◌+ℤ◌, ◌≤ℤ◌, int_laws}

-- A type whose values a WHERE clause or a Go map compares.
pub record Keyed {ℓ} (K : Type ℓ) : Type ℓ where
  pub same_key : K → K → Bool
  pub same_key_iff : (k j : K) → (same_key k j ≡ true) ↔ (k ≡ j)

instance abbrev pub string_eq : Keyed String
string_eq = record { same_key = str_eq; same_key_iff = eq_iff }

instance abbrev pub int_eq : Keyed ℤ
int_eq = record { same_key = beq_ℤ; same_key_iff = beq_ℤ_iff }

instance abbrev pub nat_eq : Keyed ℕ
nat_eq = record { same_key = nat_beq; same_key_iff = nat_beq_iff }

infix 50 ◌==◌
abbrev pub ◌==◌ {ℓ} : {K : Type ℓ} ⦃e : Keyed K⦄ (k j : K) → Bool
◌==◌ ⦃e⦄ k j = e.same_key k j

pub beq_refl {ℓ} : {K : Type ℓ} ⦃e : Keyed K⦄ (k : K) → (k == k) ≡ true
beq_refl ⦃e⦄ k = (e.same_key_iff k k).1 refl

abbrev pub Table {ℓ κ} : Type ℓ → Type κ → Type (ℓ ⊔ κ)
Table K V = List (K × V)

module _ {ℓ κ} {K : Type ℓ} {V : Type κ} ⦃e : Keyed K⦄ where
  unfoldable pub lookup : K → Table K V → Option V
  lookup k [] = none
  lookup k ((j, v) ∷ t) = if j == k then some v else lookup k t

  -- Writes the row of a key, in its place or at the end.
  unfoldable pub put : K → V → Table K V → Table K V
  put k v [] = (k, v) ∷ []
  put k v ((j, w) ∷ t) = if j == k then (j, v) ∷ t else (j, w) ∷ put k v t

  pub lookup-put_self : (k : K) (v : V) (t : Table K V) → lookup k (put k v t) ≡ some v
  unfolding lookup put
  lookup-put_self k v [] = ground (arith, beq_refl k)
  lookup-put_self k v ((j, w) ∷ t) = ground (arith, lookup-put_self k v t)

  pub lookup-put_ne : (k j : K) (v : V) (t : Table K V) → j ≢ k → lookup j (put k v t) ≡ lookup j t
  unfolding lookup put
  lookup-put_ne k j v [] h = ground (arith, e.same_key_iff k j)
  lookup-put_ne k j v ((i, w) ∷ t) h =
      ground
        (arith, e.same_key_iff i k, e.same_key_iff i j, e.same_key_iff k j, lookup-put_ne k j v t)

  pub lookup-put :
      (k j : K) (v : V) (t : Table K V)
      → lookup j (put k v t) ≡ (if k == j then some v else lookup j t)
  lookup-put k j v t = elim (Bool-cases (k == j)) [
    | inl hit ↦ rw (hit, (e.same_key_iff k j).0 hit) (lookup-put_self j v t)
    | inr miss ↦ rw miss (lookup-put_ne k j v t (λ q. cc (miss, (e.same_key_iff k j).1 (sym q))))
  ]

  pub lookup-put_cases :
      (k j : K) (v : V) (t : Table K V)
      → ((k ≡ j) × (lookup j (put k v t) ≡ some v)) ⊎ (lookup j (put k v t) ≡ lookup j t)
  lookup-put_cases k j v t = elim (Bool-cases (k == j)) [
    | inl hit ↦
        let same : k ≡ j = (e.same_key_iff k j).0 hit in
        inl (same, ap (λ (x : K). lookup x (put k v t)) (sym same) ∙ lookup-put_self k v t)
    | inr miss ↦ inr (lookup-put_ne k j v t (λ q. cc (miss, (e.same_key_iff k j).1 (sym q))))
  ]

  -- No key has two rows.
  abbrev pub IsKeyed : Table K V → Type (ℓ ⊔ κ)
  IsKeyed [] = Unit
  IsKeyed ((k, v) ∷ t) = (lookup k t ≡ none) × IsKeyed t

  pub put-IsKeyed : (k : K) (v : V) (t : Table K V) → IsKeyed t → IsKeyed (put k v t)
  unfolding lookup put
  put-IsKeyed k v [] h = (refl, tt)
  put-IsKeyed k v ((j, w) ∷ t) h = elim (Bool-cases (j == k)) [
    | inl hit ↦ rw hit h
    | inr miss ↦ rw miss (
      lookup-put_ne k j v t (λ q. cc (miss, (e.same_key_iff j k).1 q)) ∙ h.0,
      put-IsKeyed k v t h.1,
    )
  ]

  -- A row of the rest of a table has another key than the first row.
  pub lookup-rest :
      (k j : K) (v w : V) (t : Table K V)
      → lookup j t ≡ none
      → lookup k t ≡ some v
      → lookup k ((j, w) ∷ t) ≡ some v
  unfolding lookup
  lookup-rest k j v w t free h = elim (Bool-cases (j == k)) [
    | inl hit ↦ cc (free, h, ap (λ (x : K). lookup x t) ((e.same_key_iff j k).0 hit))
    | inr miss ↦ rw miss h
  ]

  -- A new key takes no other key's row.
  pub lookup-put_kept :
      (k j : K) (v w : V) (t : Table K V)
      → lookup k t ≡ none
      → lookup j t ≡ some w
      → lookup j (put k v t) ≡ some w
  lookup-put_kept k j v w t new old =
      lookup-put_ne k j v t (λ q. cc (new, old, ap (λ (x : K). lookup x t) q)) ∙ old

  pub All-put :
      (P : V → Type 0) (k : K) (v : V) (t : Table K V)
      → All (λ row. P row.1) t
      → P v
      → All (λ row. P row.1) (put k v t)
  unfolding put
  All-put P k v [] h p = (p, tt)
  All-put P k v ((j, w) ∷ t) h p = ground (arith, All-put P k v t h.1 p)

  pub All-lookup :
      (P : V → Type 0) (k : K) (v : V) (t : Table K V)
      → All (λ row. P row.1) t
      → lookup k t ≡ some v
      → P v
  unfolding lookup
  All-lookup P k v [] h q = cc
  All-lookup P k v ((j, w) ∷ t) h q = elim (Bool-cases (j == k)) [
    | inl hit ↦ let same : w ≡ v = ground arith in subst P same h.0
    | inr miss ↦ All-lookup P k v t h.1 (ground arith)
  ]

  -- The sum of a number over the rows of a table.
  unfoldable pub sum_rows : (V → ℤ) → Table K V → ℤ
  sum_rows f [] = pos 0
  sum_rows f ((k, v) ∷ t) = f v +ℤ sum_rows f t

  pub sum_rows-put_new :
      (f : V → ℤ) (k : K) (v : V) (t : Table K V)
      → lookup k t ≡ none
      → sum_rows f (put k v t) ≡ sum_rows f t +ℤ f v
  unfolding lookup put sum_rows
  sum_rows-put_new f k v [] h = omega int_laws
  sum_rows-put_new f k v ((j, w) ∷ t) h = grind (int_laws, sum_rows-put_new f k v t)

  pub sum_rows-put :
      (f : V → ℤ) (k : K) (v old : V) (t : Table K V)
      → lookup k t ≡ some old
      → sum_rows f (put k v t) +ℤ f old ≡ sum_rows f t +ℤ f v
  unfolding lookup put sum_rows
  sum_rows-put f k v old [] h = cc
  sum_rows-put f k v old ((j, w) ∷ t) h = grind (int_laws, sum_rows-put f k v old t)

  pub sum_rows-nonneg :
      (f : V → ℤ) (t : Table K V) → All (λ row. pos 0 ≤ℤ f row.1) t → pos 0 ≤ℤ sum_rows f t
  unfolding sum_rows
  sum_rows-nonneg f [] h = omega int_laws
  sum_rows-nonneg f ((j, w) ∷ t) h = grind (int_laws, sum_rows-nonneg f t h.1)

  -- A row is at most the sum, where no row counts below 0.
  pub le-sum_rows :
      (f : V → ℤ) (k : K) (v : V) (t : Table K V)
      → All (λ row. pos 0 ≤ℤ f row.1) t
      → lookup k t ≡ some v
      → f v ≤ℤ sum_rows f t
  unfolding lookup sum_rows
  le-sum_rows f k v [] h q = cc
  le-sum_rows f k v ((j, w) ∷ t) h q = elim (Bool-cases (j == k)) [
    | inl hit ↦
        let same : w ≡ v = ground arith in rw (← same) (omega (int_laws, sum_rows-nonneg f t h.1))
    | inr miss ↦ omega (int_laws, h.0, le-sum_rows f k v t h.1 (ground arith))
  ]
