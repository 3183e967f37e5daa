-- ===== src/Base/Keys.antt =====
-- Association lists that hold each key once, and how many entries they have.
use Prim.Native.Nat.{ℕ, ◌+◌}
use mathlib.Core.Path.{◌≡◌, refl, ◌∙◌}
use mathlib.Core.Bool.{true, false}
use mathlib.Core.Option.{none}
use mathlib.Core.List.{[], ◌∷◌}
use mathlib.Core.Logic.{inl, inr}
use native.Mathlib.Omega.{arith}
use nasdaq_itch_order_book_e.Base.Tests.{Bool-cases, ◌==◌, is_some}
use nasdaq_itch_order_book_e.Base.Assoc.{Assoc, find, insert, erase, size, find-insert, find-erase}

module _ {ℓ} {V : Type ℓ} where
  pub data Unique : Assoc V → Type ℓ where
    no_key : Unique []
    new_key : {k : ℕ} {v : V} {m : Assoc V} → find k m ≡ none → Unique m → Unique ((k, v) ∷ m)

  pub Unique-insert : (k : ℕ) (v : V) (m : Assoc V) → Unique m → Unique (insert k v m)
  unfolding insert find
  Unique-insert k v [] u = new_key refl no_key
  Unique-insert k v ((j, w) ∷ m) (new_key absent u) = elim (Bool-cases (j == k)) [
    | inl t ↦ let same : j ≡ k = ground arith in rw (insert, t) (new_key (rw same at absent) u)
    | inr f ↦
        let other : (k == j) ≡ false = ground arith in
        rw (insert, f) (new_key (find-insert k j v m ∙ rw other absent) (Unique-insert k v m u))
  ]

  pub Unique-erase : (k : ℕ) (m : Assoc V) → Unique m → Unique (erase k m)
  unfolding erase
  Unique-erase k [] u = no_key
  Unique-erase k ((j, w) ∷ m) (new_key absent u) = elim (Bool-cases (j == k)) [
    | inl t ↦ rw (erase, t) (Unique-erase k m u)
    | inr f ↦
        let other : (k == j) ≡ false = ground arith in
        rw (erase, f) (new_key (find-erase k j m ∙ rw other absent) (Unique-erase k m u))
  ]

  erase-absent : (k : ℕ) (m : Assoc V) → find k m ≡ none → erase k m ≡ m
  unfolding erase find
  erase-absent k [] h = refl
  erase-absent k ((j, w) ∷ m) h = ground (arith, erase-absent k m)

  pub size-erase :
      (k : ℕ) (m : Assoc V) → Unique m → is_some (find k m) ≡ true → size (erase k m) + 1 ≡ size m
  unfolding erase find size
  size-erase k [] u h = cc h
  size-erase k ((j, w) ∷ m) (new_key absent u) h = elim (Bool-cases (j == k)) [
    | inl t ↦
        let same : j ≡ k = ground arith in
        let gone = erase-absent k m (rw same at absent) in rw (erase, t, gone) (omega arith)
    | inr f ↦
        let there : is_some (find k m) ≡ true = rw f at h in
        rw (erase, f) (omega (arith, size-erase k m u there))
  ]
