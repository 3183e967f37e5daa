-- ===== src/Examples/Histogram.antt =====
-- A histogram of two durations.
use nasdaq_itch_order_book_e.Base.{◌-◌, ◌*◌, ◌^◌, ◌≡◌, ◌≤◌, ◌<◌, [], ◌∷◌, arith}
use nasdaq_itch_order_book_e.Latency.{index_for, value_for_index, k_bin_count, record_value, reset}
use nasdaq_itch_order_book_e.Latency.Bins.{index_for_lem, index_for-value_for_index}
use nasdaq_itch_order_book_e.Latency.Counts.{Recorded, reset-Recorded, record_value_lem}

index_for_lem_example :
    (index_for 5000 < k_bin_count)
    × (value_for_index (index_for 5000) ≤ 5000)
    × ((5000 - value_for_index (index_for 5000)) * 1024 ≤ 5000)
    × (5000 < 2048 → value_for_index (index_for 5000) ≡ 5000)
index_for_lem_example = index_for_lem 5000 (omega arith)

index_for-value_for_index_example :
    (value_for_index 4000 < 2 ^ 64) × (index_for (value_for_index 4000) ≡ 4000)
index_for-value_for_index_example = index_for-value_for_index 4000 (omega arith)

pub one_value-Recorded : Recorded (record_value reset 5000) (5000 ∷ [])
one_value-Recorded = record_value_lem reset-Recorded 5000 (omega arith) (omega arith)

record_value_lem_example : Recorded (record_value (record_value reset 5000) 100) (100 ∷ (5000 ∷ []))
record_value_lem_example = record_value_lem one_value-Recorded 100 (omega arith) (omega arith)
