-- ===== src/PriceIndex/Nodes.antt =====
-- A tier whose nodes hold the nodes of another tier: `Second`, `First` and the class itself.
use nasdaq_itch_order_book_e.Base.{
  ℕ, ◌+◌, ◌*◌, ◌<◌, ◌≡◌, ◌≢◌, refl, sym, ◌∙◌, ◌⊎◌, Bool, true, false, not, ◌&&◌, ◌||◌, Option, none,
  some, inl, inr, arith, ◌==◌, if◌then◌else◌, is_some, update, Bool-cases, Option-cases, ◌>>=◌,
}
use mathlib.Core.Path.{subst}
use nasdaq_itch_order_book_e.Mask.{Mask, set, clear, any}
use nasdaq_itch_order_book_e.Mask.Laws.{
  mem, IsMask, mem-set, mem-clear, set-IsMask, clear-IsMask, empty_mask-IsMask, mem-empty_mask,
  mem_of_any, none_of_any,
}
use nasdaq_itch_order_book_e.PriceIndex.{Node, new_node, or_new, add_child, remove_child, scan_mask}
use nasdaq_itch_order_book_e.PriceIndex.Tier.{Before, Tier, ==_self, scan_mask-lem}

module _ {C K : Type 0} (T : Tier C K) where
  open T use {has, same, InRange, IsWell, size, value, fresh, add, remove, scan}

  abbrev pub has_in : Option C → K → Bool
  has_in none k = false
  has_in (some c) k = has c k

  abbrev pub node_has : Node C → ℕ × K → Bool
  node_has node (b, k) = has_in (node.child b) k

  abbrev pub node_same : ℕ × K → ℕ × K → Bool
  node_same (b, k) (c, j) = (b == c) && same k j

  abbrev pub NodeInRange : ℕ × K → Type 0
  NodeInRange (b, k) = (b < 256) × InRange k

  abbrev pub node_value : ℕ × K → ℕ
  node_value (b, k) = b * size + value k

  abbrev pub node_add : ℕ × K → Node C → Node C
  node_add (b, k) node = add_child node b fresh (add k)

  abbrev pub node_remove : ℕ × K → Node C → Option (Bool × Node C)
  node_remove (b, k) node = remove_child node b (remove k)

  abbrev pub node_scan : Bool → Node C → Option (ℕ × K)
  node_scan reverse node = do
    c ← node.child (scan_mask reverse node.children)
    k ← scan reverse c
    some (scan_mask reverse node.children, k)

  -- The mask marks the children that there are, and each of them holds a key.
  pub record NodeIsWell (node : Node C) : Type 0 where
    pub words : IsMask node.children
    pub linked : (b : ℕ) → b < 256 → mem node.children b ≡ is_some (node.child b)
    pub well : (b : ℕ) (c : C) → node.child b ≡ some c → IsWell c
    pub filled : (b : ℕ) (c : C) → node.child b ≡ some c → (k : K) × InRange k × (has c k ≡ true)

  pub new_node-IsWell : NodeIsWell new_node
  new_node-IsWell = record {
    words = empty_mask-IsMask;
    linked = λ b h. mem-empty_mask b;
    well = λ b c e. cc;
    filled = λ b c e. cc;
  }

  or_new-IsWell : (node : Node C) (b : ℕ) → NodeIsWell node → IsWell (or_new (node.child b) fresh)
  or_new-IsWell node b w = elim (Option-cases (node.child b)) [
    | inl e ↦ rw e T.fresh-IsWell
    | inr (c, e) ↦ rw e (w.well b c e)
  ]

  has-or_new : (o : Option C) (k : K) → has (or_new o fresh) k ≡ has_in o k
  has-or_new none k = T.has-fresh k
  has-or_new (some c) k = refl

  stored :
      (f : ℕ → Option C) (b i : ℕ) (c x : C)
      → update f b (some c) i ≡ some x
      → (c ≡ x) ⊎ (f i ≡ some x)
  stored f b i c x e = elim (Bool-cases (b == i)) [
    | inl h ↦ inl (let e' = (rw h at e) in cc)
    | inr h ↦ inr (rw h at e)
  ]

  dropped : (f : ℕ → Option C) (b i : ℕ) (x : C) → update f b none i ≡ some x → f i ≡ some x
  dropped f b i x e = elim (Bool-cases (b == i)) [
    | inl h ↦ let e' = (rw h at e) in cc
    | inr h ↦ rw h at e
  ]

  is_some-update :
      (f : ℕ → Option C) (b i : ℕ) (c : C)
      → is_some (update f b (some c) i) ≡ ((b == i) || is_some (f i))
  is_some-update f b i c = ground arith

  -- A node with a good child stored at `b`, whose mask has `b` added.
  store-IsWell :
      (node : Node C) (b : ℕ) (c : C) (mask : Mask)
      → NodeIsWell node
      → IsMask mask
      → ((i : ℕ) → i < 256 → mem mask i ≡ ((b == i) || mem node.children i))
      → IsWell c
      → (k : K) × InRange k × (has c k ≡ true)
      → NodeIsWell (record { children = mask; child = update node.child b (some c) })
  store-IsWell node b c mask w words marks good key = record {
    words = words;
    linked = λ i h. rw (marks i h, w.linked i h) (sym (is_some-update node.child b i c));
    well = λ i x e. elim (stored node.child b i c x e) [
      | inl same_child ↦ subst IsWell same_child good
      | inr old ↦ w.well i x old
    ];
    filled = λ i x e. elim (stored node.child b i c x e) [
      | inl same_child ↦ subst (λ y. (k : K) × InRange k × (has y k ≡ true)) same_child key
      | inr old ↦ w.filled i x old
    ];
  }

  pub node_add-IsWell :
      (k : ℕ × K) (node : Node C) → NodeInRange k → NodeIsWell node → NodeIsWell (node_add k node)
  unfolding add_child
  node_add-IsWell (b, k) node range w =
      let c = or_new (node.child b) fresh in
      let found : has (add k c) k ≡ true = rw (T.has-add k k c, T.same_self k) in
      store-IsWell node b (add k c) (set node.children b) w (set-IsMask node.children b w.words)
        (λ i h. mem-set node.children b i) (T.add-IsWell k c range.1 (or_new-IsWell node b w))
        (k, range.1, found)

  pub node_has-add :
      (k j : ℕ × K) (node : Node C)
      → node_has (node_add k node) j ≡ (node_same k j || node_has node j)
  unfolding add_child
  node_has-add (b, k) (i, j) node = elim (Bool-cases (b == i)) [
    | inl e ↦ let e' : b ≡ i = ground arith in rw (e, T.has-add, has-or_new, e')
    | inr d ↦ rw d
  ]

  drop-IsWell :
      (node : Node C) (b : ℕ)
      → NodeIsWell node
      → NodeIsWell (record { children = clear node.children b; child = update node.child b none })
  drop-IsWell node b w = record {
    words = clear-IsMask node.children b w.words;
    linked = λ i h. rw (mem-clear node.children b i w.words, w.linked i h) (ground arith);
    well = λ i x e. w.well i x (dropped node.child b i x e);
    filled = λ i x e. w.filled i x (dropped node.child b i x e);
  }

  -- A mask that marks a child leads to a key.
  pub key_of_mem :
      (node : Node C) (i : ℕ)
      → i < 256
      → NodeIsWell node
      → mem node.children i ≡ true
      → (k : ℕ × K) × NodeInRange k × (node_has node k ≡ true)
  key_of_mem node i h w m = elim (Option-cases (node.child i)) [
    | inl e ↦ let l = (rw (w.linked i h, e) at m) in cc
    | inr (c, e) ↦ let (k, r, found) = w.filled i c e in ((i, k), (h, r), rw e found)
  ]

  -- Removal below a byte, once the tier below has answered.
  abbrev pub Removal : Node C → ℕ × K → Option (Bool × Node C) → Type 0
  Removal node k r =
      (stay : Bool) × (node' : Node C) × (r ≡ some (stay, node'))
      × NodeIsWell node'
      × ((j : ℕ × K) → NodeInRange j → node_has node' j ≡ (not (node_same k j) && node_has node j))
      × (stay ≡ true → (j : ℕ × K) × NodeInRange j × (node_has node' j ≡ true))
      × (stay ≡ false → (j : ℕ × K) → NodeInRange j → node_has node' j ≡ false)

  marked_self :
      (node : Node C) (b i : ℕ) (c : C)
      → b < 256
      → NodeIsWell node
      → node.child b ≡ some c
      → mem node.children i ≡ ((b == i) || mem node.children i)
  marked_self node b i c h w e = elim (Bool-cases (b == i)) [
    | inl s ↦
        let s' : b ≡ i = ground arith in
        let m : mem node.children b ≡ true = rw (w.linked b h, e) in rw (← s', m) (ground arith)
    | inr d ↦ rw d
  ]

  has-kept :
      (node : Node C) (b : ℕ) (k : K) (c c' : C)
      → node.child b ≡ some c
      → ((j : K) → InRange j → has c' j ≡ (not (same k j) && has c j))
      → (j : ℕ × K) → NodeInRange j
      → has_in (update node.child b (some c') j.0) j.1
        ≡ (not (node_same (b, k) j) && node_has node j)
  has-kept node b k c c' e law (i, j) r = elim (Bool-cases (b == i)) [
    | inl s ↦ let s' : b ≡ i = ground arith in rw (s, law j r.1, ← s', e)
    | inr d ↦ rw d
  ]

  has-dropped :
      (node : Node C) (b : ℕ) (k : K) (c c' : C)
      → node.child b ≡ some c
      → ((j : K) → InRange j → has c' j ≡ (not (same k j) && has c j))
      → ((j : K) → InRange j → has c' j ≡ false)
      → (j : ℕ × K) → NodeInRange j
      → has_in (update node.child b none j.0) j.1 ≡ (not (node_same (b, k) j) && node_has node j)
  has-dropped node b k c c' e law gone (i, j) r = elim (Bool-cases (b == i)) [
    | inl s ↦ let s' : b ≡ i = ground arith in rw (s, ← s', e) (sym (gone j r.1) ∙ law j r.1)
    | inr d ↦ rw d
  ]

  pub no_key :
      (node : Node C)
      → NodeIsWell node
      → any node.children ≡ false
      → (j : ℕ × K) → NodeInRange j
      → node_has node j ≡ false
  no_key node w a (i, j) r = elim (Option-cases (node.child i)) [
    | inl e ↦ rw e
    | inr (c, e) ↦ let l = w.linked i r.0 in cc (none_of_any node.children i r.0 a, l, e)
  ]

  removal :
      (b : ℕ) (k : K) (node : Node C)
      → NodeInRange (b, k)
      → NodeIsWell node
      → (c : C) → node.child b ≡ some c
      → has c k ≡ true
      → Removal node (b, k) (node_remove (b, k) node)
  unfolding remove_child
  removal b k node r w c e found =
      let (stay, c', eq, well, law, some_left, none_left) =
        T.removed k c r.1 (w.well b c e) found in
      rw (e, eq) (finish stay c' well law some_left none_left)
    where
      finish :
          (stay : Bool) (c' : C)
          → IsWell c'
          → ((j : K) → InRange j → has c' j ≡ (not (same k j) && has c j))
          → (stay ≡ true → (j : K) × InRange j × (has c' j ≡ true))
          → (stay ≡ false → (j : K) → InRange j → has c' j ≡ false)
          → Removal node
              (b, k)
              (if stay
                then some (true, record node { child = update node.child b (some c') })
                else some (
                  any (clear node.children b),
                  record { children = clear node.children b; child = update node.child b none },
                ))
      finish true c' well law some_left none_left =
          let (j, jr, jh) = some_left refl in
          (
            true,
            record node { child = update node.child b (some c') },
            refl,
            store-IsWell node b c' node.children w w.words (λ i h. marked_self node b i c r.0 w e)
                well (some_left refl),
            has-kept node b k c c' e law,
            λ _. ((b, j), (r.0, jr), let self = ==_self b in rw self jh),
            λ f. cc,
          )
      finish false c' well law some_left none_left =
          let w' = drop-IsWell node b w in
          (
            any (clear node.children b),
            record { children = clear node.children b; child = update node.child b none },
            refl,
            w',
            has-dropped node b k c c' e law (none_left refl),
            λ a.
                let (i, h, m) = mem_of_any (clear node.children b) w'.words a in
                key_of_mem _ i h w' m,
            λ a. no_key _ w' a,
          )

  Before-other :
      (reverse : Bool) (s b x y : ℕ)
      → x < size
      → y < size
      → Before reverse s b
      → s ≢ b
      → Before reverse (s * size + x) (b * size + y)
  Before-other true s b x y hx hy h d = grind arith
  Before-other false s b x y hx hy h d = grind arith

  Before-same :
      (reverse : Bool) (s x y : ℕ)
      → Before reverse x y
      → Before reverse (s * size + x) (s * size + y)
  Before-same true s x y h = omega arith
  Before-same false s x y h = omega arith

  abbrev pub Scanned : Bool → ℕ × K → Node C → Type 0
  Scanned reverse k node =
      (j : ℕ × K) × (node_scan reverse node ≡ some j)
      × NodeInRange j
      × (node_has node j ≡ true)
      × Before reverse (node_value j) (node_value k)

  child_of_mem :
      (node : Node C) (i : ℕ)
      → i < 256
      → NodeIsWell node
      → mem node.children i ≡ true
      → (c : C) × (node.child i ≡ some c)
  child_of_mem node i h w m = elim (Option-cases (node.child i)) [
    | inl e ↦ let l = (rw (w.linked i h, e) at m) in cc
    | inr found ↦ found
  ]

  mem_of_child :
      (node : Node C) (i : ℕ) (c : C)
      → i < 256
      → NodeIsWell node
      → node.child i ≡ some c
      → mem node.children i ≡ true
  mem_of_child node i c h w e = rw (w.linked i h, e)

  child_of_has :
      (node : Node C) (b : ℕ) (k : K)
      → node_has node (b, k) ≡ true
      → (c : C) × (node.child b ≡ some c) × (has c k ≡ true)
  child_of_has node b k h = elim (Option-cases (node.child b)) [
    | inl e ↦ let l = (rw e at h) in cc
    | inr (c, e) ↦ (c, e, rw e at h)
  ]

  Scanned-at :
      (reverse : Bool) (b : ℕ) (k : K) (node : Node C) (s : ℕ) (d : C)
      → NodeIsWell node
      → InRange k
      → scan_mask reverse node.children ≡ s
      → s < 256
      → node.child s ≡ some d
      → Before reverse s b
      → node_has node (b, k) ≡ true
      → Scanned reverse (b, k) node
  Scanned-at reverse b k node s d w r es hs ed before h = elim (Bool-cases (s == b)) [
    | inl t ↦
        let same_byte : s ≡ b = ground arith in
        let h' : has d k ≡ true = rw (← same_byte, ed) at h in
        let (j, e, jr, jh, order) = T.scanned reverse k d (w.well s d ed) r h' in
        (
          (s, j),
          rw (es, ed, e),
          (hs, jr),
          rw ed jh,
          rw (← same_byte) (Before-same reverse s (value j) (value k) order),
        )
    | inr t ↦
        let other : s ≢ b = λ q. ground arith in
        let (k', r', h') = w.filled s d ed in
        let (j, e, jr, jh, order) = T.scanned reverse k' d (w.well s d ed) r' h' in
        (
          (s, j),
          rw (es, ed, e),
          (hs, jr),
          rw ed jh,
          Before-other reverse s b (value j) (value k) (T.value-lt j jr) (T.value-lt k r) before
              other,
        )
  ]

  pub node-Scanned :
      (reverse : Bool) (k : ℕ × K) (node : Node C)
      → NodeIsWell node
      → NodeInRange k
      → node_has node k ≡ true
      → Scanned reverse k node
  node-Scanned reverse (b, k) node w r h =
      let (c, e, _) = child_of_has node b k h in
      let m = mem_of_child node b c r.0 w e in
      let (s, es, hs, ms, before) = scan_mask-lem reverse b node.children w.words r.0 m in
      let (d, ed) = child_of_mem node s hs w ms in
      Scanned-at reverse b k node s d w r.1 es hs ed before h

  pub node_removed :
      (k : ℕ × K) (node : Node C)
      → NodeInRange k
      → NodeIsWell node
      → node_has node k ≡ true
      → Removal node k (node_remove k node)
  node_removed (b, k) node r w h =
      let (c, e, found) = child_of_has node b k h in removal b k node r w c e found

  pub node_same_self : (k : ℕ × K) → node_same k k ≡ true
  node_same_self (b, k) = rw (==_self b, T.same_self k)

  pub node_value-lt : (k : ℕ × K) → NodeInRange k → node_value k < 256 * size
  node_value-lt (b, k) r = let lt = T.value-lt k r.1 in grind arith

  -- The tier of the nodes that hold such nodes.
  unfoldable pub node_tier : Tier (Node C) (ℕ × K)
  node_tier = record {
    has = node_has;
    same = node_same;
    InRange = NodeInRange;
    IsWell = NodeIsWell;
    size = 256 * size;
    value = node_value;
    fresh = new_node;
    add = node_add;
    remove = node_remove;
    scan = node_scan;
    fresh-IsWell = new_node-IsWell;
    has-fresh = λ k. refl;
    same_self = node_same_self;
    value-lt = node_value-lt;
    add-IsWell = node_add-IsWell;
    has-add = node_has-add;
    removed = node_removed;
    scanned = node-Scanned;
  }
