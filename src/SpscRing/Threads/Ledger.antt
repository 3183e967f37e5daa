-- ===== src/SpscRing/Threads/Ledger.antt =====
-- What the ring and the two histories have in common between any two accesses.
use mathlib.Core.List.{append-nil, append_assoc}
use nasdaq_itch_order_book_e.Base.{
  ℕ, suc, ◌+◌, ◌-◌, ◌%◌, ◌^◌, ◌≤◌, ◌<◌, ◌≡◌, sym, ap, ◌∙◌, none, some, List, [], ◌∷◌, ◌++◌, update,
  add64, sub64, arith, length, length-append,
}
use nasdaq_itch_order_book_e.SpscRing.{SpscRing, slot_at}
use nasdaq_itch_order_book_e.SpscRing.Wrap.{slot_of_index, used_of_indices}
use nasdaq_itch_order_book_e.SpscRing.Objects.{
  Objects, Objects-construct, Objects-destroy, head-Held, length_snoc,
}

module _ {ℓ} {T : Type ℓ} where
  -- The indices count the objects pushed and popped. The first published object may have been moved
  -- out already, and an object may be constructed that is not published; `rest` lies in between.
  pub record Ledger (power : ℕ) (ring : SpscRing T) (pushed popped out extra : List T)
      : Type ℓ where
    pub small : power < 64
    pub cap : ring.capacity ≡ 2 ^ power
    pub ones : ring.mask ≡ 2 ^ power - 1
    pub rest : List T
    pub history : pushed ≡ popped ++ (out ++ rest)
    pub reads : ring.read_index ≡ length popped % 2 ^ 64
    pub writes : ring.write_index ≡ length pushed % 2 ^ 64
    pub room : length pushed ≤ length popped + 2 ^ power
    pub objects : Objects ring.slots (2 ^ power) (length popped + length out) (rest ++ extra)

  pub length-history :
      {power : ℕ} {ring : SpscRing T} {pushed popped out extra : List T}
      (l : Ledger power ring pushed popped out extra)
      → length pushed ≡ length popped + (length out + length l.rest)
  length-history {power} {ring} {pushed} {popped} {out} l =
      rw l.history (omega (arith, length-append popped (out ++ l.rest), length-append out l.rest))

  pub used-Ledger :
      {power : ℕ} {ring : SpscRing T} {pushed popped out extra : List T}
      (l : Ledger power ring pushed popped out extra)
      → sub64 ring.write_index ring.read_index ≡ length pushed - length popped
  used-Ledger {power} {ring} {pushed} {popped} {out} l =
      let count = length-history l in
      let n : length popped + (length pushed - length popped) ≡ length pushed = omega arith in
      let used =
        used_of_indices power (length popped) (length pushed - length popped) l.small
          (let room = l.room in omega arith) in
      rw (l.writes, l.reads) (rw n at used)

  pub slot-Ledger :
      {power : ℕ} {ring : SpscRing T} {pushed popped out extra : List T}
      (l : Ledger power ring pushed popped out extra) (n : ℕ)
      → slot_at ring (n % 2 ^ 64) ≡ n % 2 ^ power
  unfolding slot_at
  slot-Ledger {power} l n = rw l.ones (slot_of_index power n l.small)

  pub write_slot-Ledger :
      {power : ℕ} {ring : SpscRing T} {pushed popped out extra : List T}
      (l : Ledger power ring pushed popped out extra)
      → slot_at ring ring.write_index ≡ (length popped + length out + length l.rest) % 2 ^ power
  write_slot-Ledger {power} {ring} {pushed} l =
      ap (λ (w : ℕ). slot_at ring w) l.writes
      ∙ slot-Ledger l (length pushed)
      ∙ ap (λ (n : ℕ). n % 2 ^ power) (omega (arith, length-history l))

  pub read_slot-Ledger :
      {power : ℕ} {ring : SpscRing T} {pushed popped out extra : List T}
      → Ledger power ring pushed popped out extra
      → slot_at ring ring.read_index ≡ length popped % 2 ^ power
  read_slot-Ledger {power} {ring} {pushed} {popped} l =
      ap (λ (w : ℕ). slot_at ring w) l.reads ∙ slot-Ledger l (length popped)

  pub Ledger-construct :
      {power : ℕ} {ring : SpscRing T} {pushed popped out : List T}
      → Ledger power ring pushed popped out []
      → length pushed < length popped + 2 ^ power
      → (value : T)
      → Ledger power
          (record ring { slots = update ring.slots (slot_at ring ring.write_index) (some value) })
          pushed
          popped
          out
          (value ∷ [])
  Ledger-construct {power} {ring} {pushed} {popped} {out} l room value =
      let o : Objects ring.slots (2 ^ power) (length popped + length out) l.rest =
        rw (append-nil l.rest) at l.objects in
      record {
        small = l.small;
        cap = l.cap;
        ones = l.ones;
        rest = l.rest;
        history = l.history;
        reads = l.reads;
        writes = l.writes;
        room = l.room;
        objects =
            rw (write_slot-Ledger l) (Objects-construct o (omega (arith, length-history l)) value);
      }

  pub Ledger-publish :
      {power : ℕ} {ring : SpscRing T} {pushed popped out : List T} {value : T}
      → Ledger power ring pushed popped out (value ∷ [])
      → length pushed < length popped + 2 ^ power
      → Ledger power
          (record ring { write_index = add64 ring.write_index 1 })
          (pushed ++ (value ∷ []))
          popped
          out
          []
  Ledger-publish {power} {ring} {pushed} {popped} {out} {value} l room = record {
    small = l.small;
    cap = l.cap;
    ones = l.ones;
    rest = l.rest ++ (value ∷ []);
    history =
        ap (λ (t : List T). t ++ (value ∷ [])) l.history
        ∙ append_assoc popped (out ++ l.rest) (value ∷ [])
        ∙ ap (λ (t : List T). popped ++ t) (append_assoc out l.rest (value ∷ []));
    reads = l.reads;
    writes = rw (l.writes, length_snoc pushed value) (omega arith);
    room = omega (arith, length_snoc pushed value);
    objects = rw (append-nil (l.rest ++ (value ∷ []))) l.objects;
  }

  pub Ledger-move :
      {power : ℕ} {ring : SpscRing T} {pushed popped extra : List T}
      (l : Ledger power ring pushed popped [] extra) (rest : List T) (x y : T)
      → l.rest ≡ y ∷ rest
      → ring.slots (slot_at ring ring.read_index) ≡ some x
      → Ledger power
          (record ring { slots = update ring.slots (slot_at ring ring.read_index) none })
          pushed
          popped
          (x ∷ [])
          extra
  Ledger-move {power} {ring} {pushed} {popped} {extra} l rest x y r e =
      let start : length popped + 0 ≡ length popped = omega arith in
      let next : length popped + 1 ≡ suc (length popped) = omega arith in
      let o : Objects ring.slots (2 ^ power) (length popped) (y ∷ (rest ++ extra)) =
        rw (start, r) at l.objects in
      let first : some y ≡ some x = sym (head-Held o.held) ∙ rw (read_slot-Ledger l) at e in
      let same : y ≡ x = cc first in
      record {
        small = l.small;
        cap = l.cap;
        ones = l.ones;
        rest = rest;
        history = rw⁻¹ same (l.history ∙ ap (λ (t : List T). popped ++ t) r);
        reads = l.reads;
        writes = l.writes;
        room = l.room;
        objects = rw (read_slot-Ledger l, next) (Objects-destroy o);
      }

  pub Ledger-release :
      {power : ℕ} {ring : SpscRing T} {pushed popped extra : List T} {x : T}
      → Ledger power ring pushed popped (x ∷ []) extra
      → Ledger power
          (record ring { read_index = add64 ring.read_index 1 })
          pushed
          (popped ++ (x ∷ []))
          []
          extra
  Ledger-release {power} {ring} {pushed} {popped} {extra} {x} l = record {
    small = l.small;
    cap = l.cap;
    ones = l.ones;
    rest = l.rest;
    history = l.history ∙ sym (append_assoc popped (x ∷ []) l.rest);
    reads = rw (l.reads, length_snoc popped x) (omega arith);
    writes = l.writes;
    room = omega (arith, l.room, length_snoc popped x);
    objects =
        let next : length (popped ++ (x ∷ [])) + 0 ≡ length popped + 1 =
          omega (arith, length_snoc popped x) in
        rw next l.objects;
  }
