-- ===== src/SpscRing/Laws.antt =====
-- The ring as a bounded FIFO queue, also where the indices wrap around.
use Prim.Native.Nat.{min}
use nasdaq_itch_order_book_e.Base.{
  ℕ, suc, ◌+◌, ◌-◌, ◌%◌, ◌^◌, ◌<◌, ◌≡◌, ◌≢◌, refl, ap, ◌∙◌, true, false, not, Option, none, some,
  List, [], ◌∷◌, ◌++◌, inl, inr, arith, ◌==◌, if◌then◌else◌, Bool-cases, update, add64, sub64,
  length,
}
use nasdaq_itch_order_book_e.SpscRing.{SpscRing, slot_at, emplace, try_pop, full, empty, size}
use nasdaq_itch_order_book_e.SpscRing.Wrap.{slot_of_index, used_of_indices, pow-64, same_index}
use nasdaq_itch_order_book_e.SpscRing.Objects.{
  Objects, Objects-construct, Objects-destroy, head-Held, length_snoc,
}

module _ {ℓ} {T : Type ℓ} where
  -- The queue that a ring stands for: `taken` objects were popped so far, and no other slot has an
  -- object.
  pub record Represents (ring : SpscRing T) (taken : ℕ) (q : List T) : Type ℓ where
    pub power : ℕ
    pub small : power < 64
    pub cap : ring.capacity ≡ 2 ^ power
    pub ones : ring.mask ≡ 2 ^ power - 1
    pub reads : ring.read_index ≡ taken % 2 ^ 64
    pub writes : ring.write_index ≡ (taken + length q) % 2 ^ 64
    pub objects : Objects ring.slots (2 ^ power) taken q

  slot-Represents :
      {ring : SpscRing T} {taken : ℕ} {q : List T} (r : Represents ring taken q) (n : ℕ)
      → slot_at ring (n % 2 ^ 64) ≡ n % 2 ^ r.power
  unfolding slot_at
  slot-Represents {ring} {taken} {q} r n = rw r.ones (slot_of_index r.power n r.small)

  used-Represents :
      {ring : SpscRing T} {taken : ℕ} {q : List T} (r : Represents ring taken q)
      → sub64 ring.write_index ring.read_index ≡ length q
  used-Represents {ring} {taken} {q} r =
      rw (r.writes, r.reads) (used_of_indices r.power taken (length q) r.small r.objects.fits)

  write_slot-Represents :
      {ring : SpscRing T} {taken : ℕ} {q : List T} (r : Represents ring taken q)
      → slot_at ring ring.write_index ≡ (taken + length q) % 2 ^ r.power
  write_slot-Represents {ring} {taken} {q} r =
      ap (λ (w : ℕ). slot_at ring w) r.writes ∙ slot-Represents r (taken + length q)

  pub read_slot-Represents :
      {ring : SpscRing T} {taken : ℕ} {q : List T} (r : Represents ring taken q)
      → slot_at ring ring.read_index ≡ taken % 2 ^ r.power
  read_slot-Represents {ring} {taken} {q} r =
      ap (λ (w : ℕ). slot_at ring w) r.reads ∙ slot-Represents r taken

  write-Represents :
      {ring : SpscRing T} {taken : ℕ} {q : List T} (r : Represents ring taken q) (x : T)
      → length q < 2 ^ r.power
      → Represents
          (record ring {
            slots = update ring.slots (slot_at ring ring.write_index) (some x);
            write_index = add64 ring.write_index 1;
          })
          taken
          (q ++ (x ∷ []))
  write-Represents {ring} {taken} {q} r x room = record {
    power = r.power;
    small = r.small;
    cap = r.cap;
    ones = r.ones;
    reads = r.reads;
    writes = rw (r.writes, length_snoc q x) (omega arith);
    objects = rw (write_slot-Represents r) (Objects-construct r.objects room x);
  }

  -- What a pop leaves behind.
  pub read-Represents :
      {ring : SpscRing T} {taken : ℕ} {x : T} {q : List T} (r : Represents ring taken (x ∷ q))
      → Represents
          (record ring {
            slots = update ring.slots (slot_at ring ring.read_index) none;
            read_index = add64 ring.read_index 1;
          })
          (suc taken)
          q
  read-Represents {ring} {taken} {x} {q} r = record {
    power = r.power;
    small = r.small;
    cap = r.cap;
    ones = r.ones;
    reads = rw r.reads (omega arith);
    writes = r.writes ∙ ap (λ (n : ℕ). n % 2 ^ 64) (omega arith);
    objects = rw (read_slot-Represents r) (Objects-destroy r.objects);
  }

  -- `emplace` on a ring that stands for a queue answers false and keeps the queue just when it is as long
  -- as the capacity, and else the ring stands for the queue with the value at its end.
  pub emplace_lem :
      {ring : SpscRing T} {taken : ℕ} {q : List T}
      → Represents ring taken q
      → (value : T)
      → let (ok, after) = emplace ring value in
        (ok ≡ not (length q == ring.capacity))
        × Represents after taken (if length q == ring.capacity then q else q ++ (value ∷ []))
  unfolding emplace
  emplace_lem {ring} {taken} {q} r value = elim (Bool-cases (length q == ring.capacity)) [
    | inl f ↦ rw (used-Represents r, f) (refl, r)
    | inr f ↦
        rw (used-Represents r, f)
          (
            refl,
            write-Represents r value (
                let fits = r.objects.fits in
                let cap = r.cap in let ne : length q ≢ ring.capacity = ground arith in omega arith),
          )
  ]

  pub indices-Represents :
      {ring : SpscRing T} {taken : ℕ} {q : List T}
      → Represents ring taken q
      → (ring.read_index == ring.write_index) ≡ (length q == 0)
  indices-Represents {ring} {taken} {q} r =
      let bound : length q < 2 ^ 64 = omega (arith, pow-64 r.power r.small, r.objects.fits) in
      rw (r.reads, r.writes) (same_index taken (length q) bound)

  -- The queue after a pop.
  abbrev pub rest_of : List T → List T
  rest_of [] = []
  rest_of (x ∷ q) = q

  abbrev pub head_of : List T → Option T
  head_of [] = none
  head_of (x ∷ q) = some x

  -- `try_pop` on a ring that stands for a queue reads no slot without an object, gives out the head of the
  -- queue, or nothing if it is empty, and leaves a ring that stands for the rest.
  pub try_pop_lem :
      {ring : SpscRing T} {taken : ℕ} (q : List T)
      → Represents ring taken q
      → (after : SpscRing T) × (try_pop ring ≡ some (head_of q, after))
        × Represents after (taken + min 1 (length q)) (rest_of q)
  unfolding try_pop
  try_pop_lem {ring} {taken} [] r =
      let e : (ring.read_index == ring.write_index) ≡ true = indices-Represents r in
      let none_more : taken + 0 ≡ taken = omega arith in (ring, rw e refl, rw none_more r)
  try_pop_lem {ring} {taken} (x ∷ q) r =
      let ne : (ring.read_index == ring.write_index) ≡ false =
        indices-Represents r ∙ ground arith in
      let here : ring.slots (slot_at ring ring.read_index) ≡ some x =
        ap ring.slots (read_slot-Represents r) ∙ head-Held r.objects.held in
      let one_more : taken + min 1 (suc (length q)) ≡ suc taken = omega arith in
      (
        record ring {
          slots = update ring.slots (slot_at ring ring.read_index) none;
          read_index = add64 ring.read_index 1;
        },
        rw (ne, here) refl,
        rw one_more (read-Represents r),
      )

  pub full-Represents :
      {ring : SpscRing T} {taken : ℕ} {q : List T}
      → Represents ring taken q
      → full ring ≡ (length q == ring.capacity)
  unfolding full
  full-Represents r = rw (used-Represents r) refl

  pub empty-Represents :
      {ring : SpscRing T} {taken : ℕ} {q : List T}
      → Represents ring taken q
      → empty ring ≡ (length q == 0)
  unfolding empty
  empty-Represents {ring} {taken} {q} r = indices-Represents r

  pub size-Represents :
      {ring : SpscRing T} {taken : ℕ} {q : List T} → Represents ring taken q → size ring ≡ length q
  unfolding size
  size-Represents {ring} {taken} {q} r =
      rw (used-Represents r) (let fits = r.objects.fits in let cap = r.cap in ground arith)
