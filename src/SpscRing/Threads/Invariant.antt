-- ===== src/SpscRing/Threads/Invariant.antt =====
-- What every interleaving of the two threads keeps.
use nasdaq_itch_order_book_e.Base.{
  ℕ, ◌+◌, ◌-◌, ◌%◌, ◌^◌, ◌<◌, ◌≡◌, ◌≢◌, refl, sym, ap, ◌∙◌, List, [], ◌∷◌, ◌++◌, sub64, arith,
  length,
}
use nasdaq_itch_order_book_e.SpscRing.Objects.{length_snoc}
use nasdaq_itch_order_book_e.SpscRing.Threads.{
  Producer, resting, loaded_write, has_room, constructed, Consumer, waiting, loaded_read,
  has_object, destroyed, System, Step, load_write, find_full, find_room, construct, publish,
  load_read, find_empty, find_object, move_out, release, Steps, still, further,
}
use nasdaq_itch_order_book_e.SpscRing.Threads.Ledger.{
  Ledger, used-Ledger, length-history, Ledger-construct, Ledger-publish, Ledger-move,
  Ledger-release,
}

module _ {ℓ} {T : Type ℓ} where
  -- The object that the producer has constructed and not published.
  abbrev pub unpublished : Producer T → List T
  unpublished resting = []
  unpublished (loaded_write value write) = []
  unpublished (has_room value write) = []
  unpublished (constructed value write) = value ∷ []

  -- The objects published and not released, from which the consumer may have moved the first out.
  abbrev pub released : Consumer T → List T
  released waiting = []
  released (loaded_read read) = []
  released (has_object read) = []
  released (destroyed read out) = out ∷ []

  abbrev Producing : ℕ → ℕ → ℕ → Producer T → Type 0
  Producing limit write pushed resting = Unit {0}
  Producing limit write pushed (loaded_write value w) = w ≡ write
  Producing limit write pushed (has_room value w) = (w ≡ write) × (pushed < limit)
  Producing limit write pushed (constructed value w) = (w ≡ write) × (pushed < limit)

  abbrev Consuming : ℕ → ℕ → ℕ → Consumer T → Type 0
  Consuming read pushed popped waiting = Unit {0}
  Consuming read pushed popped (loaded_read r) = r ≡ read
  Consuming read pushed popped (has_object r) = (r ≡ read) × (popped < pushed)
  Consuming read pushed popped (destroyed r out) = r ≡ read

  pub record Coherent (power : ℕ) (s : System T) : Type ℓ where
    pub ledger :
        Ledger power s.ring s.pushed s.popped (released s.consumer) (unpublished s.producer)
    pub producing :
        Producing (length s.popped + 2 ^ power) s.ring.write_index (length s.pushed) s.producer
    pub consuming : Consuming s.ring.read_index (length s.pushed) (length s.popped) s.consumer

  pub uncons : (q : List T) → 0 < length q → (x : T) × (rest : List T) × (q ≡ x ∷ rest)
  uncons [] h = absurd (omega arith)
  uncons (x ∷ rest) h = (x, rest, refl)

  Consuming-publish :
      (read popped : ℕ) (pushed : List T) (consumer : Consumer T) (value : T)
      → Consuming read (length pushed) popped consumer
      → Consuming read (length (pushed ++ (value ∷ []))) popped consumer
  Consuming-publish read popped pushed waiting value c = tt
  Consuming-publish read popped pushed (loaded_read r) value c = c
  Consuming-publish read popped pushed (has_object r) value (same, left) =
      (same, omega (arith, length_snoc pushed value))
  Consuming-publish read popped pushed (destroyed r out) value c = c

  Producing-release :
      (k write pushed : ℕ) (popped : List T) (producer : Producer T) (out : T)
      → Producing (length popped + k) write pushed producer
      → Producing (length (popped ++ (out ∷ [])) + k) write pushed producer
  Producing-release k write pushed popped resting out c = tt
  Producing-release k write pushed popped (loaded_write value w) out c = c
  Producing-release k write pushed popped (has_room value w) out (same, room) =
      (same, omega (arith, length_snoc popped out))
  Producing-release k write pushed popped (constructed value w) out (same, room) =
      (same, omega (arith, length_snoc popped out))

  pub Step-Coherent : {power : ℕ} {s t : System T} → Step s t → Coherent power s → Coherent power t
  Step-Coherent {power} {s} {t} (load_write value at) c = record {
    ledger = rw at at c.ledger;
    producing = refl;
    consuming = c.consuming;
  }
  Step-Coherent {power} {s} {t} (find_full value write at f) c = record {
    ledger = rw at at c.ledger;
    producing = tt;
    consuming = c.consuming;
  }
  Step-Coherent {power} {s} {t} (find_room value write at f) c =
      let l = c.ledger in
      let same : write ≡ s.ring.write_index = rw at at c.producing in
      let room = l.room in
      let apart : length s.pushed - length s.popped ≢ 2 ^ power =
        λ e. f (ap (λ (w : ℕ). sub64 w s.ring.read_index) same ∙ used-Ledger l ∙ e ∙ sym l.cap) in
      record { ledger = rw at at l; producing = (same, omega arith); consuming = c.consuming }
  Step-Coherent {power} {s} {t} (construct value write at) c =
      let (same, room) : (write ≡ s.ring.write_index)
          × (length s.pushed < length s.popped + 2 ^ power) =
        rw at at c.producing in
      let l : Ledger power s.ring s.pushed s.popped (released s.consumer) [] = rw at at c.ledger in
      record {
        ledger = rw same (Ledger-construct l room value);
        producing = (same, room);
        consuming = c.consuming;
      }
  Step-Coherent {power} {s} {t} (publish value write at) c =
      let (same, room) : (write ≡ s.ring.write_index)
          × (length s.pushed < length s.popped + 2 ^ power) =
        rw at at c.producing in
      let l : Ledger power s.ring s.pushed s.popped (released s.consumer) (value ∷ []) =
        rw at at c.ledger in
      record {
        ledger = rw same (Ledger-publish l room);
        producing = tt;
        consuming =
            Consuming-publish s.ring.read_index (length s.popped) s.pushed s.consumer value
              c.consuming;
      }
  Step-Coherent {power} {s} {t} (load_read at) c = record {
    ledger = rw at at c.ledger;
    producing = c.producing;
    consuming = refl;
  }
  Step-Coherent {power} {s} {t} (find_empty read at f) c = record {
    ledger = rw at at c.ledger;
    producing = c.producing;
    consuming = tt;
  }
  Step-Coherent {power} {s} {t} (find_object read at f) c =
      let same : read ≡ s.ring.read_index = rw at at c.consuming in
      let l = c.ledger in
      let count = length-history l in
      let apart : length s.pushed ≢ length s.popped =
        λ e. f (same ∙ l.reads ∙ ap (λ (n : ℕ). n % 2 ^ 64) (sym e) ∙ sym l.writes) in
      record {
        ledger = rw at at c.ledger;
        producing = c.producing;
        consuming = (same, omega arith);
      }
  Step-Coherent {power} {s} {t} (move_out read out at f) c =
      let (same, some_left) : (read ≡ s.ring.read_index) × (length s.popped < length s.pushed) =
        rw at at c.consuming in
      let l : Ledger power s.ring s.pushed s.popped [] (unpublished s.producer) =
        rw at at c.ledger in
      let count = length-history l in
      let (y, rest, split) = uncons l.rest (omega arith) in
      record {
        ledger = rw same (Ledger-move l rest out y split (rw same at f));
        producing = c.producing;
        consuming = same;
      }
  Step-Coherent {power} {s} {t} (release read out at) c =
      let same : read ≡ s.ring.read_index = rw at at c.consuming in
      let l : Ledger power s.ring s.pushed s.popped (out ∷ []) (unpublished s.producer) =
        rw at at c.ledger in
      record {
        ledger = rw same (Ledger-release l);
        producing =
            Producing-release (2 ^ power) s.ring.write_index (length s.pushed) s.popped s.producer
              out c.producing;
        consuming = tt;
      }

  pub Steps-Coherent :
      {power : ℕ} {s t : System T} → Steps s t → Coherent power s → Coherent power t
  Steps-Coherent still c = c
  Steps-Coherent (further path step) c = Step-Coherent step (Steps-Coherent path c)
