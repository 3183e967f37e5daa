-- ===== src/SpscRing/Threads.antt =====
-- The producer and the consumer thread of include/lob/spsc_ring.hpp at once, one shared access at a
-- time and in any order. A release store is taken to publish all that its thread wrote before, and
-- an acquire load to see it, so that the accesses interleave.
pub mod Ledger
pub mod Invariant
pub mod Safety
use nasdaq_itch_order_book_e.Base.{
  ℕ, ◌≡◌, ◌≢◌, Option, none, some, List, [], ◌∷◌, ◌++◌, update, add64, sub64,
}
use nasdaq_itch_order_book_e.SpscRing.{SpscRing, slot_at}

-- Where `emplace` stands, with its local variables.
pub data Producer {ℓ} (T : Type ℓ) : Type ℓ where
  resting : Producer T
  loaded_write : (value : T) (write : ℕ) → Producer T
  has_room : (value : T) (write : ℕ) → Producer T
  constructed : (value : T) (write : ℕ) → Producer T

-- Where `try_pop` stands.
pub data Consumer {ℓ} (T : Type ℓ) : Type ℓ where
  waiting : Consumer T
  loaded_read : (read : ℕ) → Consumer T
  has_object : (read : ℕ) → Consumer T
  destroyed : (read : ℕ) (out : T) → Consumer T

-- The ring, both threads, and what they have published and released so far.
pub record System {ℓ} (T : Type ℓ) : Type ℓ where
  pub ring : SpscRing T
  pub producer : Producer T
  pub consumer : Consumer T
  pub pushed : List T
  pub popped : List T

module _ {ℓ} {T : Type ℓ} where
  pub data Step (s : System T) : System T → Type ℓ where
    load_write :
        (value : T)
        → s.producer ≡ resting
        → Step s (record s { producer = loaded_write value s.ring.write_index })
    find_full :
        (value : T) (write : ℕ)
        → s.producer ≡ loaded_write value write
        → sub64 write s.ring.read_index ≡ s.ring.capacity
        → Step s (record s { producer = resting })
    find_room :
        (value : T) (write : ℕ)
        → s.producer ≡ loaded_write value write
        → sub64 write s.ring.read_index ≢ s.ring.capacity
        → Step s (record s { producer = has_room value write })
    construct :
        (value : T) (write : ℕ)
        → s.producer ≡ has_room value write
        → Step s (record s {
          ring = record s.ring { slots = update s.ring.slots (slot_at s.ring write) (some value) };
          producer = constructed value write;
        })
    publish :
        (value : T) (write : ℕ)
        → s.producer ≡ constructed value write
        → Step s (record s {
          ring = record s.ring { write_index = add64 write 1 };
          producer = resting;
          pushed = s.pushed ++ (value ∷ []);
        })
    load_read :
        s.consumer ≡ waiting → Step s (record s { consumer = loaded_read s.ring.read_index })
    find_empty :
        (read : ℕ)
        → s.consumer ≡ loaded_read read
        → read ≡ s.ring.write_index
        → Step s (record s { consumer = waiting })
    find_object :
        (read : ℕ)
        → s.consumer ≡ loaded_read read
        → read ≢ s.ring.write_index
        → Step s (record s { consumer = has_object read })
    move_out :
        (read : ℕ) (out : T)
        → s.consumer ≡ has_object read
        → s.ring.slots (slot_at s.ring read) ≡ some out
        → Step s (record s {
          ring = record s.ring { slots = update s.ring.slots (slot_at s.ring read) none };
          consumer = destroyed read out;
        })
    release :
        (read : ℕ) (out : T)
        → s.consumer ≡ destroyed read out
        → Step s (record s {
          ring = record s.ring { read_index = add64 read 1 };
          consumer = waiting;
          popped = s.popped ++ (out ∷ []);
        })

  pub data Steps (s : System T) : System T → Type ℓ where
    still : Steps s s
    further : {t u : System T} → Steps s t → Step t u → Steps s u

  -- Both threads at rest around a ring.
  abbrev pub at_rest : SpscRing T → List T → List T → System T
  at_rest ring pushed popped = record {
    ring = ring;
    producer = resting;
    consumer = waiting;
    pushed = pushed;
    popped = popped;
  }
