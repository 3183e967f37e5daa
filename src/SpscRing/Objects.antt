-- ===== src/SpscRing/Objects.antt =====
-- The ring as a circular array of objects.
use native.Mathlib.Nat.{add-mod_right}
use native.Mathlib.Decide.{dec_lt}
use nasdaq_itch_order_book_e.Base.{
  ℕ, suc, ◌+◌, ◌%◌, ◌≤◌, ◌<◌, ◌≡◌, ◌≢◌, refl, sym, ◌∙◌, Option, none, some, List, [], ◌∷◌, ◌++◌,
  arith, update, update_same, update_other, length, length-append,
}
use nasdaq_itch_order_book_e.SpscRing.Wrap.{mod_apart, back}

module _ {ℓ} {T : Type ℓ} where
  -- The objects in the slots from the index a on, in a ring of c slots.
  pub data Held (slots : ℕ → Option T) (c : ℕ) : ℕ → List T → Type ℓ where
    stop : {a : ℕ} → Held slots c a []
    object :
        {a : ℕ} {x : T} {q : List T}
        → slots (a % c) ≡ some x
        → Held slots c (suc a) q
        → Held slots c a (x ∷ q)

  -- A write behind the last object adds to the end.
  pub Held-write :
      (slots : ℕ → Option T) (c a : ℕ) (q : List T) (x : T)
      → length q < c
      → Held slots c a q
      → Held (update slots ((a + length q) % c) (some x)) c a (q ++ (x ∷ []))
  Held-write slots c a [] x h stop =
      let e : a + 0 ≡ a = omega arith in rw e (object (update_same slots (a % c) (some x)) stop)
  Held-write slots c a (y ∷ q) x h (object e r) =
      let shift : a + suc (length q) ≡ suc a + length q = omega arith in
      let other : (suc a + length q) % c ≢ a % c = λ f.
        let zero_more : a + 0 ≡ a = omega arith in
        let more : a + suc (length q) ≡ suc a + length q = omega arith in
        mod_apart c a 0 (suc (length q)) (omega arith) (omega arith)
          (rw (zero_more, more) (sym f)) in
      rw shift (
        object (update_other slots ((suc a + length q) % c) (some x) (a % c) other ∙ e)
          (Held-write slots c (suc a) q x (omega arith) r))

  -- A write outside the objects keeps them.
  pub Held-keep :
      (slots : ℕ → Option T) (c a i : ℕ) (o : Option T) (q : List T)
      → ((d : ℕ) → d < length q → (a + d) % c ≢ i)
      → Held slots c a q
      → Held (update slots i o) c a q
  Held-keep slots c a i o [] apart stop = stop
  Held-keep slots c a i o (y ∷ q) apart (object e r) =
      object
        (update_other slots i o (a % c)
            (λ f. let z : a + 0 ≡ a = omega arith in apart 0 (omega arith) (rw z (sym f)))
          ∙ e)
        (Held-keep slots c (suc a) i o q
          (λ d h.
            let shift : suc a + d ≡ a + suc d = omega arith in
            rw shift (apart (suc d) (omega arith)))
          r)

  pub vacated :
      (slots : ℕ → Option T) (c a d : ℕ)
      → d < c
      → (suc d < c → slots ((a + suc d) % c) ≡ none)
      → update slots (a % c) none ((suc a + d) % c) ≡ none
  vacated slots c a d below beyond =
      let more : a + suc d ≡ suc a + d = omega arith in
      elim (dec_lt (suc d) c) [
        | yes l ↦
            update_other slots (a % c) none ((suc a + d) % c) (λ f. back c a d l (sym f))
            ∙ rw more at (beyond l)
        | no l ↦
            let round : (suc a + d) % c ≡ a % c =
              let whole : suc a + d ≡ a + c = omega arith in rw (whole, add-mod_right a c) refl in
            rw round (update_same slots (a % c) none)
      ]

  pub head-Held :
      {slots : ℕ → Option T} {c a : ℕ} {x : T} {q : List T}
      → Held slots c a (x ∷ q)
      → slots (a % c) ≡ some x
  head-Held (object e r) = e

  pub tail-Held :
      {slots : ℕ → Option T} {c a : ℕ} {x : T} {q : List T}
      → Held slots c a (x ∷ q)
      → Held slots c (suc a) q
  tail-Held (object e r) = r

  pub length_snoc : (q : List T) (x : T) → length (q ++ (x ∷ [])) ≡ length q + 1
  length_snoc q x = length-append q (x ∷ [])

  -- The objects from the index a on, and nothing in the other slots.
  pub record Objects (slots : ℕ → Option T) (c a : ℕ) (q : List T) : Type ℓ where
    pub fits : length q ≤ c
    pub held : Held slots c a q
    pub free : (d : ℕ) → length q ≤ d → d < c → slots ((a + d) % c) ≡ none

  -- Construction behind the last object.
  pub Objects-construct :
      {slots : ℕ → Option T} {c a : ℕ} {q : List T}
      → Objects slots c a q
      → length q < c
      → (x : T) → Objects (update slots ((a + length q) % c) (some x)) c a (q ++ (x ∷ []))
  Objects-construct {slots} {c} {a} {q} o room x = record {
    fits = omega (arith, length_snoc q x);
    held = Held-write slots c a q x room o.held;
    free = λ d above below.
        update_other slots ((a + length q) % c) (some x) ((a + d) % c) (
          mod_apart c a (length q) d (omega (arith, length_snoc q x))
            (omega (arith, length_snoc q x)))
        ∙ o.free d (omega (arith, length_snoc q x)) below;
  }

  -- Destruction of the first object.
  pub Objects-destroy :
      {slots : ℕ → Option T} {c a : ℕ} {x : T} {q : List T}
      → Objects slots c a (x ∷ q)
      → Objects (update slots (a % c) none) c (suc a) q
  Objects-destroy {slots} {c} {a} {x} {q} o = record {
    fits = let fits = o.fits in omega arith;
    held =
        Held-keep slots c (suc a) (a % c) none q
          (λ d h f. let fits = o.fits in back c a d (omega arith) f) (tail-Held o.held);
    free = λ d above below. vacated slots c a d below (λ l. o.free (suc d) (omega arith) l);
  }
