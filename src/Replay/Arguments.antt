-- ===== src/Replay/Arguments.antt =====
-- The arguments of the replay program.
use nasdaq_itch_order_book_e.Base.{
  ℕ, ◌-◌, ◌^◌, ◌<◌, ◌≡◌, refl, sym, ◌∙◌, bit_and, true, false, not, ◌||◌, Option, none, some, List,
  [], ◌∷◌, ◌==◌, ltb, inl, inr, Bool-cases, Option-cases, arith, ◌>>=◌,
}
use nasdaq_itch_order_book_e.Base.BitLaws.{pow-pos}
use nasdaq_itch_order_book_e.Replay.{
  ReplayConfig, parse_capacity, parse_positive_size, string_eq, set_ring_capacity,
  set_max_instruments, set_max_resting_orders, set_checkpoint_every, set_snapshot_locate,
  parse_option, parse_options, parse_arguments, default_config,
}
use nasdaq_itch_order_book_e.SpscRing.Lifetime.{power_of_two}
use mathlib.Core.Logic.{◌⊎◌}
use Prim.Native.String.{String}

-- What the program needs of its configuration: the ring's constructor takes the capacity, and the
-- limits and the locate number are words that are not zero.
pub record Usable (config : ReplayConfig) : Type 0 where
  pub ring : (k : ℕ) × (k < 64) × (config.ring_capacity ≡ 2 ^ k)
  pub instruments :
      (0 < config.engine_limits.max_instruments) × (config.engine_limits.max_instruments < 2 ^ 64)
  pub orders :
      (0 < config.engine_limits.max_resting_orders)
      × (config.engine_limits.max_resting_orders < 2 ^ 64)
  pub locate : (n : ℕ) → config.snapshot_locate ≡ some n → (0 < n) × (n < 2 ^ 16)

module _ (stoull : String → Option ℕ)
    (word : (s : String) (n : ℕ) → stoull s ≡ some n → n < 2 ^ 64) where
  capacity_power :
      (s : String)
      → (parse_capacity stoull s ≡ 0) ⊎ ((k : ℕ) × (k < 64) × (parse_capacity stoull s ≡ 2 ^ k))
  unfolding parse_capacity
  capacity_power s = elim (Option-cases (stoull s)) [
    | inl missing ↦ inl (rw (parse_capacity, missing) refl)
    | inr (value, there) ↦ elim (Bool-cases (value == 0 || not (bit_and value (value - 1) == 0))) [
      | inl bad ↦ inl (rw (parse_capacity, there, bad) refl)
      | inr good ↦
          let (k, small, same) =
            power_of_two 64 value (word s value there) (λ z. ground arith) (ground arith) in
          inr (k, small, rw (parse_capacity, there, good) same)
    ]
  ]

  positive_word :
      (s : String) (n : ℕ) → parse_positive_size stoull s ≡ some n → (0 < n) × (n < 2 ^ 64)
  unfolding parse_positive_size
  positive_word s n h = elim (Option-cases (stoull s)) [
    | inl missing ↦ let e = (rw (parse_positive_size, missing) at h) in cc e
    | inr (value, there) ↦ elim (Bool-cases (value == 0 || ltb (2 ^ 64 - 1) value)) [
      | inl bad ↦ let e = (rw (parse_positive_size, there, bad) at h) in cc e
      | inr good ↦
          let e : some value ≡ some n = rw (parse_positive_size, there, good) at h in
          let same : value ≡ n = cc e in
          let bound = word s value there in (ground arith, omega arith)
    ]
  ]

  -- What a step of the parser keeps, if it does not give up.
  abbrev Keeps : Option ReplayConfig → Type 0
  Keeps run = (next : ReplayConfig) → run ≡ some next → Usable next

  Keeps-none : {run : Option ReplayConfig} → run ≡ none → Keeps run
  Keeps-none e next h = let f : none ≡ some next = sym e ∙ h in cc f

  Keeps-some :
      {run : Option ReplayConfig} (set : ReplayConfig) → run ≡ some set → Usable set → Keeps run
  Keeps-some set e u next h =
      let f : some set ≡ some next = sym e ∙ h in let same : set ≡ next = cc f in rw same at u

  -- A branch that sets a word that is not zero.
  Keeps-positive :
      (value : String) (set : ℕ → Option ReplayConfig)
      → ((n : ℕ) → 0 < n → n < 2 ^ 64 → Keeps (set n))
      → Keeps (parse_positive_size stoull value >>= set)
  Keeps-positive value set keep = elim (Option-cases (parse_positive_size stoull value)) [
    | inl bad ↦ Keeps-none (rw bad refl)
    | inr (n, there) ↦
        let (positive, bound) = positive_word value n there in rw there (keep n positive bound)
  ]

  module _ (value : String) (config : ReplayConfig) (u : Usable config) where
    ring_capacity-Keeps : Keeps (set_ring_capacity stoull value config)
    unfolding set_ring_capacity
    ring_capacity-Keeps = elim (capacity_power value) [
      | inl z ↦ Keeps-none (rw (set_ring_capacity, z) refl)
      | inr (k, small, same) ↦
          let nz : (parse_capacity stoull value == 0) ≡ false = let p = pow-pos k in ground arith in
          Keeps-some (record config { ring_capacity = parse_capacity stoull value })
            (rw (set_ring_capacity, nz) refl)
            (record {
              ring = (k, small, same);
              instruments = u.instruments;
              orders = u.orders;
              locate = u.locate;
            })
    ]

    snapshot_locate-Keeps : Keeps (set_snapshot_locate stoull value config)
    unfolding set_snapshot_locate
    snapshot_locate-Keeps = Keeps-positive value _ (λ n positive bound.
        elim (Bool-cases (ltb (2 ^ 16 - 1) n)) [
          | inl big ↦ Keeps-none (rw big refl)
          | inr fits ↦
              Keeps-some (record config { snapshot_locate = some n }) (rw fits refl)
                (record {
                  ring = u.ring;
                  instruments = u.instruments;
                  orders = u.orders;
                  locate = λ m e. let same : n ≡ m = cc e in (omega arith, ground arith);
                })
        ])

    option-Keeps : (option : String) → Keeps (parse_option stoull option value config)
    unfolding parse_option set_max_instruments set_max_resting_orders set_checkpoint_every
    option-Keeps option = elim (Bool-cases (string_eq option "--ring-capacity")) [
      | inl t ↦ rw (parse_option, t) ring_capacity-Keeps
      | inr f ↦ elim (Bool-cases (string_eq option "--max-instruments")) [
        | inl t ↦
            rw (parse_option, f, t)
              (Keeps-positive value _ (λ n positive bound. Keeps-some _ refl (record {
                ring = u.ring;
                instruments = (positive, bound);
                orders = u.orders;
                locate = u.locate;
              })))
        | inr f1 ↦ elim (Bool-cases (string_eq option "--max-resting-orders")) [
          | inl t ↦
              rw (parse_option, f, f1, t)
                (Keeps-positive value _ (λ n positive bound. Keeps-some _ refl (record {
                  ring = u.ring;
                  instruments = u.instruments;
                  orders = (positive, bound);
                  locate = u.locate;
                })))
          | inr f2 ↦ elim (Bool-cases (string_eq option "--checkpoint-every")) [
            | inl t ↦
                rw (parse_option, f, f1, f2, t)
                  (Keeps-positive value _ (λ n positive bound. Keeps-some _ refl (record {
                    ring = u.ring;
                    instruments = u.instruments;
                    orders = u.orders;
                    locate = u.locate;
                  })))
            | inr f3 ↦ elim (Bool-cases (string_eq option "--snapshot-locate")) [
              | inl t ↦ rw (parse_option, f, f1, f2, f3, t) snapshot_locate-Keeps
              | inr f4 ↦ Keeps-none (rw (parse_option, f, f1, f2, f3, f4) refl)
            ]
          ]
        ]
      ]
    ]

  options_keep :
      (options : List String) (config : ReplayConfig)
      → Usable config
      → Keeps (parse_options stoull options config)
  unfolding parse_options
  options_keep [] config u = Keeps-some config refl u
  options_keep (option ∷ []) config u = elim (Bool-cases (string_eq option "--fail-on-reject")) [
    | inl t ↦
        Keeps-some (record config { fail_on_reject = true }) (rw (parse_options, t) refl)
          (record {
            ring = u.ring;
            instruments = u.instruments;
            orders = u.orders;
            locate = u.locate;
          })
    | inr f ↦ Keeps-none (rw (parse_options, f) refl)
  ]
  options_keep (option ∷ (value ∷ options)) config u =
      elim (Bool-cases (string_eq option "--fail-on-reject")) [
        | inl t ↦
            rw (parse_options, t)
              (options_keep (value ∷ options) (record config { fail_on_reject = true })
                (record {
                  ring = u.ring;
                  instruments = u.instruments;
                  orders = u.orders;
                  locate = u.locate;
                }))
        | inr f ↦ elim (Option-cases (parse_option stoull option value config)) [
          | inl bad ↦ Keeps-none (rw (parse_options, f, bad) refl)
          | inr (next, there) ↦
              rw (parse_options, f, there)
                (options_keep options next (option-Keeps value config u option next there))
        ]
      ]

  default-Usable : Usable default_config
  default-Usable = record {
    ring = (16, omega arith, refl);
    instruments = (omega arith, omega arith);
    orders = (omega arith, omega arith);
    locate = λ n e. cc e;
  }

  -- If `std::stoull` gives 64-bit numbers, arguments that are accepted give a ring capacity that is a power
  -- of two below 2 ^ 64, limits that are 64-bit numbers and not zero, and a locate number, if any, that is
  -- of 16 bits and not zero.
  pub parse_arguments_lem :
      (arguments : List String) (config : ReplayConfig)
      → parse_arguments stoull arguments default_config ≡ some config
      → Usable config
  unfolding parse_arguments
  parse_arguments_lem [] config h = cc h
  parse_arguments_lem (path ∷ options) config h =
      options_keep options (record default_config { input_path = path })
        (let u = default-Usable in
          record {
            ring = u.ring;
            instruments = u.instruments;
            orders = u.orders;
            locate = u.locate;
          })
        config h
