-- ===== src/SpscRing.antt =====
-- `SpscRing<T>` of include/lob/spsc_ring.hpp, each call run without interruption. A slot holds the
-- object that lives in it, or nothing; a read of a slot without an object ends the run with `none`.
pub mod Wrap
pub mod Objects
pub mod Laws
pub mod Lifetime
pub mod Threads
use Prim.Native.Nat.{bit_and}
use nasdaq_itch_order_book_e.Base.{
  ℕ, zero, suc, ◌-◌, Bool, true, false, ◌||◌, not, Option, none, some, ◌>>=◌, ◌==◌, leb,
  if◌then◌else◌, update, add64, sub64,
}

pub record SpscRing {ℓ} (T : Type ℓ) : Type ℓ where
  pub capacity : ℕ
  pub mask : ℕ
  pub slots : ℕ → Option T
  pub write_index : ℕ
  pub read_index : ℕ

module _ {ℓ} {T : Type ℓ} where
  -- The constructor, which throws at a capacity that is no power of two.
  unfoldable pub new_ring : ℕ → Option (SpscRing T)
  new_ring capacity =
      if capacity == 0 || not (bit_and capacity (sub64 capacity 1) == 0)
      then none
      else some (record {
        capacity = capacity;
        mask = sub64 capacity 1;
        slots = λ i. none;
        write_index = 0;
        read_index = 0;
      })

  -- The place in `slots_` of an index.
  unfoldable pub slot_at : SpscRing T → ℕ → ℕ
  slot_at ring index = bit_and index ring.mask

  -- `emplace`; `try_push` calls it.
  unfoldable pub emplace : SpscRing T → T → Bool × SpscRing T
  emplace ring value =
      let write = ring.write_index in
      if sub64 write ring.read_index == ring.capacity then (false, ring) else (
        true,
        record ring {
          slots = update ring.slots (slot_at ring write) (some value);
          write_index = add64 write 1;
        },
      )

  -- The inner option is what goes to `out`.
  unfoldable pub try_pop : SpscRing T → Option (Option T × SpscRing T)
  try_pop ring =
      let read = ring.read_index in
      if read == ring.write_index then some (none, ring) else do
        object ← ring.slots (slot_at ring read)
        some (
          some object,
          record ring {
            slots = update ring.slots (slot_at ring read) none;
            read_index = add64 read 1;
          },
        )

  unfoldable pub full : SpscRing T → Bool
  full ring = sub64 ring.write_index ring.read_index == ring.capacity

  unfoldable pub empty : SpscRing T → Bool
  empty ring = ring.read_index == ring.write_index

  unfoldable pub size : SpscRing T → ℕ
  size ring =
      let used = sub64 ring.write_index ring.read_index in
      if leb used ring.capacity then used else ring.capacity

  -- `clear`, which the destructor calls: objects are destroyed from `read` on, on fuel.
  unfoldable pub clear_from : ℕ → ℕ → SpscRing T → Option (SpscRing T)
  clear_from zero read ring = none
  clear_from (suc fuel) read ring = elim (read == ring.write_index) [
    | true ↦ some ring
    | false ↦ do
      object ← ring.slots (slot_at ring read)
      clear_from fuel (add64 read 1)
          (record ring { slots = update ring.slots (slot_at ring read) none })
  ]
