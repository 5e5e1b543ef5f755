-- ===== src/Lru2/Tests.antt =====
-- A set of four ways, two of them exact, on concrete histories.
use sniper.Base.{
  ℕ, zero, suc, ◌≤◌, ◌<◌, ◌≡◌, ◌≢◌, refl, inr, true, false, some, List, [], ◌∷◌, arith, log2, suc,
}
use sniper.BlockInfo.{plain, PlainBlock, is_valid_way, is_valid_replacement}
use sniper.Lru2.{
  age_at, create, touch_segment, update_replacement_index, first_invalid, oldest_way, replace_in,
  get_replacement_index,
}
use sniper.Lru2.Segments.{IsLru, create-IsLru, update_replacement_index-IsLru}
use sniper.Lru2.Recency.{AllBelow, run_uses, used_after, run_uses-recency}
use sniper.Lru2.Replacement.{
  Victim, first_way, end_way, get_replacement_index-Victim, least_recently_used,
}

abbrev block : ℕ → PlainBlock
block tag = record { tag = tag; upgrading = false }

abbrev full_set : List PlainBlock
full_set = block 1 ∷ block 2 ∷ block 3 ∷ block 4 ∷ []

-- The last use comes first.
abbrev history : List ℕ
history = 3 ∷ 0 ∷ 2 ∷ 3 ∷ 1 ∷ []

history-AllBelow : (n : ℕ) → 4 ≤ n → AllBelow n history
history-AllBelow n h = (omega arith, (omega arith, (omega arith, (omega arith, (omega arith, tt)))))

created_bits : (create 4).lru_bits ≡ 0 ∷ 1 ∷ 0 ∷ 1 ∷ []
unfolding create log2
created_bits = refl

history_bits : (run_uses (create 4) history).lru_bits ≡ 0 ∷ 1 ∷ 1 ∷ 0 ∷ []
unfolding create log2 run_uses update_replacement_index touch_segment
history_bits = refl

history_victim :
    get_replacement_index plain (run_uses (create 4) history) full_set true
    ≡ some (2, update_replacement_index (run_uses (create 4) history) 2)
unfolding create log2 run_uses update_replacement_index touch_segment get_replacement_index
    replace_in first_invalid oldest_way
history_victim = refl

update_replacement_index-IsLru_example : IsLru (update_replacement_index (create 4) 3)
unfolding create log2
update_replacement_index-IsLru_example =
    update_replacement_index-IsLru (create 4) 3 (omega arith)
      (create-IsLru 4 (omega arith) (omega arith))

run_uses-recency_example :
    age_at (run_uses (create 4) history).lru_bits 3
    < age_at (run_uses (create 4) history).lru_bits 2
unfolding create log2 used_after
run_uses-recency_example =
    run_uses-recency (create 4) history 3 2 (history-AllBelow 4 (omega arith))
      (create-IsLru 4 (omega arith) (omega arith))
      (inr (omega arith, omega arith, omega arith, omega arith)) (omega arith) refl

get_replacement_index-Victim_example :
    (k : ℕ) × (get_replacement_index plain (create 4) full_set false
      ≡ some (k, update_replacement_index (create 4) k))
    × Victim plain full_set (create 4) (first_way (create 4) false) (end_way (create 4) false) k
unfolding create log2
get_replacement_index-Victim_example =
    get_replacement_index-Victim plain full_set (create 4) false (omega arith)

all_full :
    (j : ℕ)
    → j < 4
    → (is_valid_way plain full_set j ≡ true) × (is_valid_replacement plain full_set j ≡ true)
unfolding is_valid_replacement
all_full zero h = (refl, refl)
all_full (suc zero) h = (refl, refl)
all_full (suc (suc zero)) h = (refl, refl)
all_full (suc (suc (suc zero))) h = (refl, refl)
all_full (suc (suc (suc (suc j)))) h = absurd (omega arith)

least_recently_used_example :
    (k : ℕ) × (get_replacement_index plain (run_uses (create 4) history) full_set true
      ≡ some (k, update_replacement_index (run_uses (create 4) history) k))
    × (first_way (run_uses (create 4) history) true ≤ k)
    × (k < end_way (run_uses (create 4) history) true)
    × ((j : ℕ)
        → first_way (run_uses (create 4) history) true ≤ j
        → j < end_way (run_uses (create 4) history) true
        → k ≢ j
        → used_after k j history ≡ false)
unfolding create log2 run_uses update_replacement_index
least_recently_used_example =
    least_recently_used plain full_set 4 history true (omega arith) (omega arith)
      (history-AllBelow 4 (omega arith)) (omega arith) (λ j p q. all_full j (omega arith))
