-- ===== src/SpscRing/Lifetime.antt =====
-- The ring when it is made and when it is cleared.
use native.Mathlib.Nat.{mod-lt, mod_self}
use Prim.Native.Nat.{bit_and}
use native.Mathlib.Decide.{dec_lt}
use nasdaq_itch_order_book_e.Base.{
  ℕ, zero, suc, ◌+◌, ◌-◌, ◌/◌, ◌%◌, ◌^◌, ◌≤◌, ◌<◌, ◌≡◌, ◌≢◌, refl, sym, ap, ◌∙◌, true, false, none,
  some, List, [], ◌∷◌, inl, inr, arith, ◌==◌, Bool-cases, update, add64, sub64, length,
}
use nasdaq_itch_order_book_e.Base.Bits.{bit_and_step}
use nasdaq_itch_order_book_e.Base.BitLaws.{and-ones, pow-pos, pow-double}
use nasdaq_itch_order_book_e.SpscRing.{SpscRing, slot_at, clear_from, new_ring}
use nasdaq_itch_order_book_e.SpscRing.Wrap.{pow-64, round_trip}
use nasdaq_itch_order_book_e.SpscRing.Objects.{stop, head-Held}
use nasdaq_itch_order_book_e.SpscRing.Laws.{
  Represents, indices-Represents, read_slot-Represents, read-Represents,
}

and_self : (w a : ℕ) → a ≤ w → bit_and a a ≡ a
and_self zero a h = let z : a ≡ 0 = omega arith in rw z (omega (arith, bit_and_step 0 0))
and_self (suc w) a h = omega (arith, bit_and_step a a, and_self w (a / 2) (omega arith))

-- The constructor's test accepts nothing but powers of two.
pub power_of_two :
    (w c : ℕ) → c < 2 ^ w → c ≢ 0 → bit_and c (c - 1) ≡ 0 → (k : ℕ) × (k < w) × (c ≡ 2 ^ k)
power_of_two zero c h nz e = absurd (omega arith)
power_of_two (suc w) c h nz e =
    let step = bit_and_step c (c - 1) in
    elim (dec_lt 1 c) [
      | no l ↦ (0, omega arith, omega arith)
      | yes l ↦ elim (dec_lt (c % 2) 1) [
        | yes even ↦
            let half : (c - 1) / 2 ≡ c / 2 - 1 = omega arith in
            let rest : bit_and (c / 2) (c / 2 - 1) ≡ 0 = rw⁻¹ half (omega arith) in
            let (k, small, same) =
              power_of_two w (c / 2) (omega (arith, pow-double w)) (λ z. omega arith) rest in
            (suc k, omega arith, omega (arith, pow-double k))
        | no odd ↦
            let half : (c - 1) / 2 ≡ c / 2 = omega arith in
            let self = and_self (c / 2) (c / 2) (omega arith) in
            let zero_half : bit_and (c / 2) (c / 2) ≡ 0 =
              ap (λ (t : ℕ). bit_and (c / 2) t) (sym half) ∙ omega arith in
            absurd (omega arith)
      ]
    ]

module _ {ℓ} {T : Type ℓ} where
  -- Every slot is some index past the last object, when there is none.
  all_free :
      {ring : SpscRing T} {taken : ℕ}
      → Represents ring taken []
      → (i : ℕ) → i < ring.capacity
      → ring.slots i ≡ none
  all_free {ring} {taken} r i h =
      let cap = r.cap in
      let room : i < 2 ^ r.power = omega arith in
      let trip = round_trip (2 ^ r.power) taken i room in
      rw trip at (
        r.objects.free ((i + 2 ^ r.power - taken % 2 ^ r.power) % 2 ^ r.power) (omega arith)
          (mod-lt (i + 2 ^ r.power - taken % 2 ^ r.power) {m = 2 ^ r.power} (pow-pos r.power)))

  -- With one unit of fuel more than the queue that the ring stands for is long, the loop of `clear`
  -- ends, destroys only objects that are there, and leaves no slot with an object.
  pub clear_from_lem :
      (ring : SpscRing T) (read taken : ℕ) (q : List T)
      → Represents (record ring { read_index = read }) taken q
      → (after : SpscRing T) × (clear_from (suc (length q)) read ring ≡ some after)
        × ((i : ℕ) → i < ring.capacity → after.slots i ≡ none)
  unfolding clear_from slot_at
  clear_from_lem ring read taken [] r =
      let e : (read == ring.write_index) ≡ true = indices-Represents r in
      (ring, rw (e, clear_from) refl, all_free r)
  clear_from_lem ring read taken (x ∷ q) r =
      let ne : (read == ring.write_index) ≡ false = indices-Represents r ∙ ground arith in
      let here : ring.slots (slot_at ring read) ≡ some x =
        ap ring.slots (read_slot-Represents r) ∙ head-Held r.objects.held in
      let (after, run, clean) =
        clear_from_lem (record ring { slots = update ring.slots (slot_at ring read) none })
          (add64 read 1) (suc taken) q (read-Represents r) in
      (after, rw (ne, here, clear_from) run, clean)

  -- The constructor takes exactly the powers of two, and the ring it makes is empty.
  pub new_ring_lem :
      (k : ℕ)
      → k < 64
      → (ring : SpscRing T) × (new_ring (2 ^ k) ≡ some ring)
        × (ring.capacity ≡ 2 ^ k)
        × Represents ring 0 []
  unfolding new_ring
  new_ring_lem k h =
      let p = pow-pos k in
      let below = pow-64 k h in
      let minus : sub64 (2 ^ k) 1 ≡ 2 ^ k - 1 = omega arith in
      let nz : (2 ^ k == 0) ≡ false = ground arith in
      let ands : bit_and (2 ^ k) (2 ^ k - 1) ≡ 0 = and-ones k (2 ^ k) ∙ mod_self (2 ^ k) in
      let ring : SpscRing T = record {
        capacity = 2 ^ k;
        mask = 2 ^ k - 1;
        slots = λ i. none;
        write_index = 0;
        read_index = 0;
      } in
      (
        ring,
        rw (nz, minus, ands) refl,
        refl,
        record {
          power = k;
          small = h;
          cap = refl;
          ones = refl;
          reads = refl;
          writes = refl;
          objects = record { fits = omega arith; held = stop; free = λ d l u. refl };
        },
      )

  -- Whatever the constructor accepts is such a capacity.
  pub accepted_power :
      (c : ℕ) (ring : SpscRing T)
      → c < 2 ^ 64
      → new_ring c ≡ some ring
      → (k : ℕ) × (k < 64) × (c ≡ 2 ^ k)
  unfolding new_ring
  accepted_power c ring h e = elim (Bool-cases (c == 0)) [
    | inl z ↦ let refused = (rw z at e) in cc refused
    | inr nz ↦ elim (Bool-cases (bit_and c (sub64 c 1) == 0)) [
      | inl z ↦
          let minus : sub64 c 1 ≡ c - 1 = ground arith in
          let bits : bit_and c (sub64 c 1) ≡ 0 = ground arith in
          power_of_two 64 c h (λ f. ground arith) (rw minus at bits)
      | inr nz' ↦ let refused = (rw (nz, nz') at e) in cc refused
    ]
  ]

  pub new_ring-Represents :
      (c : ℕ) (ring : SpscRing T) → c < 2 ^ 64 → new_ring c ≡ some ring → Represents ring 0 []
  new_ring-Represents c ring h e =
      let (k, small, same) = accepted_power c ring h e in
      let (made, run, cap, r) = new_ring_lem k small in
      let unique : some made ≡ some ring = sym run ∙ rw same at e in
      let one : made ≡ ring = cc unique in rw one at r
