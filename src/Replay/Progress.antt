-- ===== src/Replay/Progress.antt =====
-- What holds between the turns of the two threads: where each event of the file is.
use mathlib.Core.List.{append-nil}
use nasdaq_itch_order_book_e.Base.{
  ℕ, suc, ◌+◌, ◌≤◌, ◌≡◌, refl, sym, ap, ◌∙◌, true, false, not, some, Bool, List, [], ◌∷◌, ◌++◌, inl,
  inr, Option-cases, length, ◌>>=◌,
}
use nasdaq_itch_order_book_e.Itch.{ItchEvent}
use nasdaq_itch_order_book_e.Itch.Words.{Bytes}
use nasdaq_itch_order_book_e.MatchingEngine.{Engine, apply}
use nasdaq_itch_order_book_e.MatchingEngine.Books.{Books}
use nasdaq_itch_order_book_e.MatchingEngine.Apply.{Fits, AllFit, apply_all}
use nasdaq_itch_order_book_e.SpscRing.Laws.{Represents}
use nasdaq_itch_order_book_e.Replay.Pipeline.{
  QueuedEvent, ProducerPlace, reading, pushing, closing, joined, ConsumerPlace, checking,
  checking_empty, popping, left, Pipeline,
}
use nasdaq_itch_order_book_e.Replay.Fetched.{file_events}

abbrev pub events : List QueuedEvent → List ItchEvent
events [] = []
events (queued ∷ q) = queued.event ∷ events q

pub events-append : (q r : List QueuedEvent) → events (q ++ r) ≡ events q ++ events r
events-append [] r = refl
events-append (x ∷ q) r = ap (λ (l : List ItchEvent). x.event ∷ l) (events-append q r)

-- What the producer has yet to push, of all events of the file.
abbrev pub Ahead : ProducerPlace → Bool → List ℕ → List ItchEvent × Bool → List ItchEvent → Type 0
Ahead reading failed rest total sent =
    (fuel : ℕ) × (failed ≡ false)
    × (length rest ≤ fuel)
    × (total.0 ≡ sent ++ (file_events fuel rest).0)
    × (total.1 ≡ (file_events fuel rest).1)
Ahead (pushing queued) failed rest total sent =
    (fuel : ℕ) × (failed ≡ false)
    × (length rest ≤ fuel)
    × (total.0 ≡ sent ++ (queued.event ∷ (file_events fuel rest).0))
    × (total.1 ≡ (file_events fuel rest).1)
Ahead closing failed rest total sent = (total.0 ≡ sent) × (total.1 ≡ not failed)
Ahead joined failed rest total sent = (total.0 ≡ sent) × (total.1 ≡ not failed)

abbrev pub has_joined : ProducerPlace → Bool
has_joined joined = true
has_joined producer = false

-- What the consumer has learnt.
abbrev pub Learnt : ConsumerPlace → ProducerPlace → List QueuedEvent → Type 0
Learnt checking producer q = Unit {0}
Learnt checking_empty producer q = has_joined producer ≡ true
Learnt popping producer q = Unit {0}
Learnt left producer q = (has_joined producer ≡ true) × (q ≡ [])

-- A state of both threads on the way: the events applied are those of the file, in order, then come
-- those in the queue and those that the producer has yet to push.
pub record Underway {Stream : Type 0} (Holds : Stream → List ℕ → Type 0) (start : Engine)
    (total : List ItchEvent × Bool) (p : Pipeline Stream) : Type 0 where
  pub rest : List ℕ
  pub holds : Holds p.input rest
  pub bytes : Bytes rest
  pub taken : ℕ
  pub waiting : List QueuedEvent
  pub represents : Represents p.queue taken waiting
  pub applied : List ItchEvent
  pub engine : apply_all start applied ≡ some p.engine
  pub books : Books (length applied) p.engine.books
  pub ahead : Ahead p.producer p.producer_failed rest total (applied ++ events waiting)
  pub done : p.producer_done ≡ has_joined p.producer
  pub learnt : Learnt p.consumer p.producer waiting
  pub decoded_count : p.decoded_messages ≡ length applied + length waiting
  pub applied_count : p.applied_messages ≡ length applied

-- The events that were pushed begin the file's events.
pub Ahead-prefix :
    (producer : ProducerPlace) (failed : Bool) (rest : List ℕ) (total : List ItchEvent × Bool)
    (sent : List ItchEvent)
    → Ahead producer failed rest total sent
    → (more : List ItchEvent) × (total.0 ≡ sent ++ more)
Ahead-prefix reading failed rest total sent (fuel, f, le, all, ok) = (_, all)
Ahead-prefix (pushing queued) failed rest total sent (fuel, f, le, all, ok) = (_, all)
Ahead-prefix closing failed rest total sent (all, ok) = ([], all ∙ sym (append-nil sent))
Ahead-prefix joined failed rest total sent (all, ok) = ([], all ∙ sym (append-nil sent))

pub apply_all-append :
    (e : Engine) (xs ys : List ItchEvent)
    → apply_all e (xs ++ ys) ≡ (do e1 ← apply_all e xs; apply_all e1 ys)
unfolding apply_all
apply_all-append e [] ys = refl
apply_all-append e (x ∷ xs) ys = elim (Option-cases (apply e x)) [
  | inl stuck ↦ rw stuck refl
  | inr (r, h) ↦ rw h (apply_all-append r.1 xs ys)
]

pub AllFit-middle :
    (xs : List ItchEvent) (x : ItchEvent) (ys : List ItchEvent) → AllFit (xs ++ (x ∷ ys)) → Fits x
AllFit-middle [] x ys f = f.0
AllFit-middle (y ∷ xs) x ys f = AllFit-middle xs x ys f.1

pub length-events : (q : List QueuedEvent) → length (events q) ≡ length q
length-events [] = refl
length-events (x ∷ q) = ap suc (length-events q)
