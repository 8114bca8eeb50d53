-- ===== src/Threading/ParallelAccumulate.antt =====
-- apps/threading/include/parallel_accumulate.hpp. Each thread writes only its own result, and all are joined
-- before the results are read: a run is the order in which the blocks are accumulated. An unsigned long has 64 bits.
use communicate_between_proc.Prelude.{
  ℕ, zero, suc, ◌-◌, ◌/◌, none, some, List, [], ◌∷◌, min, take, drop, length, replicate, set,
  get_elem?, add_size, sub_size, ◌==◌, if◌then◌else◌,
}

abbrev pub min_per_thread : ℕ
min_per_thread = 25

-- For the number that hardware_concurrency returns.
unfoldable pub thread_count : ℕ → ℕ → ℕ
thread_count hardware_threads length =
    let max_threads = sub_size (add_size length min_per_thread) 1 / min_per_thread in
    min (if hardware_threads == 0 then 2 else hardware_threads) max_threads

-- The blocks of the threads, and the one that the caller takes.
unfoldable pub blocks {ℓ} : {A : Type ℓ} → ℕ → ℕ → List A → List (List A)
blocks zero block_size rest = rest ∷ []
blocks (suc threads) block_size rest =
    take block_size rest ∷ blocks threads block_size (drop block_size rest)

module _ {ℓ} {A : Type ℓ} (plus : A → A → A) where
  -- std::accumulate
  unfoldable pub accumulate : List A → A → A
  accumulate [] result = result
  accumulate (x ∷ xs) result = accumulate xs (plus result x)

  unfoldable pub accumulate_block : List (List A) → ℕ → List A → List A
  accumulate_block bs i results = elim (get_elem? bs i) [
    | none ↦ results
    | some block ↦ elim (get_elem? results i) [
      | none ↦ results
      | some result ↦ set results i (accumulate block result)
    ]
  ]

  unfoldable pub accumulate_blocks : List (List A) → List ℕ → List A → List A
  accumulate_blocks bs [] results = results
  accumulate_blocks bs (i ∷ order) results =
      accumulate_blocks bs order (accumulate_block bs i results)

  -- `value` is that of T{}.
  unfoldable pub parallel_accumulate : A → ℕ → List ℕ → List A → A → A
  parallel_accumulate value hardware_threads order values init =
      let count = thread_count hardware_threads (length values) in
      let bs = blocks (count - 1) (length values / count) values in
      if length values == 0
      then init
      else accumulate (accumulate_blocks bs order (replicate count value)) init
