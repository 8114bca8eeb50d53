-- ===== src/Threading/Sums.antt =====
-- The sum of apps/threading/include/parallel_accumulate.hpp, against that of one thread.
use communicate_between_proc.Prelude.{
  ℕ, zero, suc, ◌-◌, ◌/◌, ◌<◌, ◌^◌, ◌≡◌, refl, sym, ap, ◌∙◌, false, List, [], ◌∷◌, ◌++◌, map, take,
  drop, length, replicate, append-nil, take-append-drop, ◌==◌, arith,
}
use communicate_between_proc.Threading.ParallelAccumulate.{
  thread_count, blocks, accumulate, accumulate_blocks, parallel_accumulate,
}
use communicate_between_proc.Threading.Orders.{occurrences, blocks_results}

abbrev concat {ℓ} : {A : Type ℓ} → List (List A) → List A
concat [] = []
concat (xs ∷ xss) = xs ++ concat xss

module _ {ℓ} {A : Type ℓ} where
  concat-blocks : (threads size : ℕ) (xs : List A) → concat (blocks threads size xs) ≡ xs
  unfolding blocks
  concat-blocks zero size xs = append-nil xs
  concat-blocks (suc threads) size xs =
      ap (λ l. take size xs ++ l) (concat-blocks threads size (drop size xs))
      ∙ take-append-drop size xs

  replicate-blocks :
      (threads size : ℕ) (xs : List A) (value : A)
      → replicate (suc threads) value ≡ map (λ b. value) (blocks threads size xs)
  unfolding blocks
  replicate-blocks zero size xs value = refl
  replicate-blocks (suc threads) size xs value =
      ap (λ l. value ∷ l) (replicate-blocks threads size (drop size xs) value)

length-blocks {ℓ} :
    {A : Type ℓ} (threads size : ℕ) (xs : List A) → length (blocks threads size xs) ≡ suc threads
unfolding blocks
length-blocks zero size xs = refl
length-blocks (suc threads) size xs = ap suc (length-blocks threads size (drop size xs))

thread_count_pos : (hardware n : ℕ) → 0 < n → n < 2 ^ 63 → 0 < thread_count hardware n
unfolding thread_count
thread_count_pos hardware n pos h = ground arith

module _ {ℓ} {A : Type ℓ} (plus : A → A → A) (value : A)
    (assoc : (x y z : A) → plus (plus x y) z ≡ plus x (plus y z))
    (unit : (x : A) → plus x value ≡ x) where
  accumulate-append :
      (xs ys : List A) (r : A)
      → accumulate plus (xs ++ ys) r ≡ accumulate plus ys (accumulate plus xs r)
  unfolding accumulate
  accumulate-append [] ys r = refl
  accumulate-append (x ∷ xs) ys r = accumulate-append xs ys (plus r x)

  accumulate-plus :
      (xs : List A) (r s : A) → plus r (accumulate plus xs s) ≡ accumulate plus xs (plus r s)
  unfolding accumulate
  accumulate-plus [] r s = refl
  accumulate-plus (x ∷ xs) r s =
      accumulate-plus xs r (plus s x) ∙ ap (λ t. accumulate plus xs t) (sym (assoc r s x))

  accumulate-results :
      (bs : List (List A)) (init : A)
      → accumulate plus (map (λ b. accumulate plus b value) bs) init
        ≡ accumulate plus (concat bs) init
  unfolding accumulate
  accumulate-results [] init = refl
  accumulate-results (b ∷ bs) init =
      ap (λ t. accumulate plus (map (λ c. accumulate plus c value) bs) t)
        (accumulate-plus b init value ∙ ap (λ t. accumulate plus b t) (unit init))
      ∙ accumulate-results bs (accumulate plus b init)
      ∙ sym (accumulate-append b (concat bs) init)

  -- Where addition is associative and T{} is its right unit, a range has less than 2 ^ 63 elements, and the block of each thread is
  -- accumulated once, in any order, the sum of the threads is that of one.
  pub parallel_accumulate-accumulate :
      (hardware_threads : ℕ) (order : List ℕ) (values : List A) (init : A)
      → length values < 2 ^ 63
      → ((i : ℕ) → i < thread_count hardware_threads (length values) → occurrences i order ≡ 1)
      → parallel_accumulate plus value hardware_threads order values init
        ≡ accumulate plus values init
  unfolding parallel_accumulate accumulate
  parallel_accumulate-accumulate hardware_threads order [] init h once = refl
  parallel_accumulate-accumulate hardware_threads order (x ∷ xs) init h once =
      let values = x ∷ xs in
      let count = thread_count hardware_threads (length values) in
      let size = length values / count in
      let positive = thread_count_pos hardware_threads (length values) (omega arith) h in
      let count_lem : suc (count - 1) ≡ count = omega (arith, positive) in
      let bs = blocks (count - 1) size values in
      let all = length-blocks (count - 1) size values ∙ count_lem in
      let started : replicate count value ≡ map (λ b. value) bs =
        ap (λ n. replicate n value) (sym count_lem)
        ∙ replicate-blocks (count - 1) size values value in
      let nonempty : (length values == 0) ≡ false = ground arith in
      let summed : accumulate plus (accumulate_blocks plus bs order (replicate count value)) init
          ≡ accumulate plus values init =
        ap (λ l. accumulate plus (accumulate_blocks plus bs order l) init) started
        ∙ ap (λ l. accumulate plus l init)
            (blocks_results plus bs value order (λ i lt. once i (omega (arith, lt, all))))
        ∙ accumulate-results bs init
        ∙ ap (λ l. accumulate plus l init) (concat-blocks (count - 1) size values) in
      rw (parallel_accumulate, nonempty) summed
