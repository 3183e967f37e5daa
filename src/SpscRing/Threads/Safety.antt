-- ===== src/SpscRing/Threads/Safety.antt =====
-- The two threads of include/lob/spsc_ring.hpp from a new ring on.
use mathlib.Core.List.{append-nil}
use nasdaq_itch_order_book_e.Base.{
  ℕ, ◌+◌, ◌-◌, ◌^◌, ◌≤◌, ◌<◌, ◌≡◌, ◌≢◌, refl, sym, ap, ◌∙◌, Bool-cases, ◌==◌, Option, Option-cases,
  none, some, List, [], ◌∷◌, ◌++◌, inl, inr, update, add64, sub64, arith, length, length-append,
  if◌then◌else◌,
}
use nasdaq_itch_order_book_e.SpscRing.{SpscRing, slot_at, new_ring, emplace, try_pop}
use nasdaq_itch_order_book_e.SpscRing.Lifetime.{new_ring_lem, accepted_power}
use nasdaq_itch_order_book_e.SpscRing.Objects.{Objects, head-Held}
use nasdaq_itch_order_book_e.SpscRing.Threads.{
  resting, has_room, waiting, has_object, System, load_write, find_full, find_room, construct,
  publish, load_read, find_empty, find_object, move_out, release, Steps, still, further, at_rest,
}
use nasdaq_itch_order_book_e.SpscRing.Threads.Ledger.{
  Ledger, length-history, write_slot-Ledger, read_slot-Ledger,
}
use nasdaq_itch_order_book_e.SpscRing.Threads.Invariant.{
  Coherent, Steps-Coherent, released, unpublished, uncons,
}

module _ {ℓ} {T : Type ℓ} where
  start-Coherent :
      (capacity : ℕ) (ring : SpscRing T)
      → capacity < 2 ^ 64
      → new_ring capacity ≡ some ring
      → (k : ℕ) × (capacity ≡ 2 ^ k) × Coherent k (at_rest ring [] [])
  start-Coherent capacity ring h e =
      let (k, small, same) = accepted_power capacity ring h e in
      let (made, run, cap, r) = new_ring_lem {T = T} k small in
      let unique : some made ≡ some ring = sym run ∙ rw same at e in
      let one : made ≡ ring = cc unique in
      let power : 2 ^ r.power ≡ 2 ^ k = sym r.cap ∙ cap in
      (
        k,
        same,
        rw⁻¹ one (record {
          ledger = record {
            small = small;
            cap = cap;
            ones = r.ones ∙ ap (λ (n : ℕ). n - 1) power;
            rest = [];
            history = refl;
            reads = r.reads;
            writes = r.writes;
            room = omega arith;
            objects = rw power at r.objects;
          };
          producing = tt;
          consuming = tt;
        }),
      )

  -- From a new ring on, in every interleaving of the producer's and the consumer's accesses: the objects
  -- published are those released, in the same order, followed by some that wait, and no more wait than
  -- the ring has slots; also where the indices wrap around.
  pub threads_fifo :
      (capacity : ℕ) (ring : SpscRing T)
      → capacity < 2 ^ 64
      → new_ring capacity ≡ some ring
      → {s : System T} → Steps (at_rest ring [] []) s
      → (waiting_objects : List T) × (s.pushed ≡ s.popped ++ waiting_objects)
        × (length waiting_objects ≤ capacity)
  threads_fifo capacity ring h e {s} path =
      let (k, same, c0) = start-Coherent capacity ring h e in
      let l = (Steps-Coherent path c0).ledger in
      let count = length-history l in
      let room = l.room in
      (
        released s.consumer ++ l.rest,
        l.history,
        omega (arith, length-append (released s.consumer) l.rest),
      )

  consumer_reads :
      {k : ℕ} {s : System T} (c : Coherent k s) (read : ℕ)
      → s.consumer ≡ has_object read
      → (out : T) × (s.ring.slots (slot_at s.ring read) ≡ some out)
  consumer_reads {k} {s} c read at =
      let (same, some_left) : (read ≡ s.ring.read_index) × (length s.popped < length s.pushed) =
        rw at at c.consuming in
      let l : Ledger k s.ring s.pushed s.popped [] (unpublished s.producer) = rw at at c.ledger in
      let count = length-history l in
      let (x, rest, split) = uncons l.rest (omega arith) in
      let start : length s.popped + 0 ≡ length s.popped = omega arith in
      let o : Objects s.ring.slots (2 ^ k) (length s.popped)
          (x ∷ (rest ++ unpublished s.producer)) =
        rw (start, split) at l.objects in
      (x, rw (same, read_slot-Ledger l) (head-Held o.held))

  producer_builds :
      {k : ℕ} {s : System T} (c : Coherent k s) (value : T) (write : ℕ)
      → s.producer ≡ has_room value write
      → s.ring.slots (slot_at s.ring write) ≡ none
  producer_builds {k} {s} c value write at =
      let (same, room) : (write ≡ s.ring.write_index)
          × (length s.pushed < length s.popped + 2 ^ k) =
        rw at at c.producing in
      let l : Ledger k s.ring s.pushed s.popped (released s.consumer) [] = rw at at c.ledger in
      let count = length-history l in
      let o : Objects s.ring.slots (2 ^ k) (length s.popped + length (released s.consumer)) l.rest =
        rw (append-nil l.rest) at l.objects in
      rw (same, write_slot-Ledger l) (o.free (length l.rest) (omega arith) (omega arith))

  -- From a new ring on, in every interleaving: when the consumer is about to move an object out, its slot
  -- has one, and when the producer is about to construct one, its slot has none.
  pub threads_safe :
      (capacity : ℕ) (ring : SpscRing T)
      → capacity < 2 ^ 64
      → new_ring capacity ≡ some ring
      → {s : System T} → Steps (at_rest ring [] []) s
      → ((read : ℕ)
          → s.consumer ≡ has_object read
          → (out : T) × (s.ring.slots (slot_at s.ring read) ≡ some out))
        × ((value : T) (write : ℕ)
            → s.producer ≡ has_room value write
            → s.ring.slots (slot_at s.ring write) ≡ none)
  threads_safe capacity ring h e {s} path =
      let (k, same, c0) = start-Coherent capacity ring h e in
      let c = Steps-Coherent path c0 in
      (λ read at. consumer_reads c read at, λ value write at. producer_builds c value write at)

  -- Some accesses lead from the ring at rest to the ring that `emplace` returns, and publish the value if it
  -- returns true.
  pub emplace-Steps :
      (ring : SpscRing T) (pushed popped : List T) (value : T)
      → let (ok, after) = emplace ring value in
        Steps
          (at_rest ring pushed popped)
          (at_rest after (if ok then pushed ++ (value ∷ []) else pushed) popped)
  unfolding emplace
  emplace-Steps ring pushed popped value =
      elim (Bool-cases (sub64 ring.write_index ring.read_index == ring.capacity)) [
        | inl f ↦ rw f (
            further (further still (load_write value refl))
              (find_full value ring.write_index refl (ground arith)))
        | inr f ↦
            rw f
              let first : Steps (at_rest ring pushed popped) (record {
                ring = ring;
                producer = has_room value ring.write_index;
                consumer = waiting;
                pushed = pushed;
                popped = popped;
              }) =
                  further (further still (load_write value refl))
                    (find_room value ring.write_index refl (λ g. ground arith)) in
                further (further first (construct value ring.write_index refl))
                  (publish value ring.write_index refl)
      ]

  abbrev pub listed : Option T → List T
  listed none = []
  listed (some x) = x ∷ []

  -- So is a call of `try_pop` that the producer does not disturb.
  pub try_pop-Steps :
      (ring : SpscRing T) (pushed popped : List T) (out : Option T) (after : SpscRing T)
      → try_pop ring ≡ some (out, after)
      → Steps (at_rest ring pushed popped) (at_rest after pushed (popped ++ listed out))
  unfolding try_pop
  try_pop-Steps ring pushed popped out after run =
      elim (Bool-cases (ring.read_index == ring.write_index)) [
        | inl f ↦
            let equal : ring.read_index ≡ ring.write_index = ground arith in
            let e : some (none, ring) ≡ some (out, after) = rw f at run in
            let no_value : out ≡ none = cc e in
            let same_ring : after ≡ ring = cc e in
            rw (no_value, same_ring, append-nil popped)
              (further (further still (load_read refl)) (find_empty ring.read_index refl equal))
        | inr f ↦ elim (Option-cases (ring.slots (slot_at ring ring.read_index))) [
          | inl missing ↦ let e = (rw (f, missing) at run) in cc e
          | inr (x, here) ↦
              let apart : ring.read_index ≢ ring.write_index = λ g. ground arith in
              let next : SpscRing T = record ring {
                slots = update ring.slots (slot_at ring ring.read_index) none;
                read_index = add64 ring.read_index 1;
              } in
              let e : some (some x, next) ≡ some (out, after) = rw (f, here) at run in
              let one_value : out ≡ some x = cc e in
              let same_ring : after ≡ next = cc e in
              let first : Steps (at_rest ring pushed popped) (record {
                ring = ring;
                producer = resting;
                consumer = has_object ring.read_index;
                pushed = pushed;
                popped = popped;
              }) =
                further (further still (load_read refl)) (find_object ring.read_index refl apart) in
              rw (one_value, same_ring)
                (further (further first (move_out ring.read_index x refl here))
                  (release ring.read_index x refl))
        ]
      ]
