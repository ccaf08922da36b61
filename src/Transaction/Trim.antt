-- ===== src/Transaction/Trim.antt =====
-- `trimTransactionsForState` of TransactionController.ts, on items with a time, a key and a status.
use mathlib.Core.List.{reverse}
use fork_metamask_core.Common.{
  ℕ, Bool, not, ◌||◌, List, [], ◌∷◌, if◌then◌else◌, ltb, length, any, HasEquality, ◌==◌,
}

module _ {A K : Type 0} ⦃e : HasEquality K⦄ (time : A → ℕ) (key : A → K) (is_final : A → Bool) where
  -- The sort by `a.time > b.time ? -1 : 1`: the latest first, and items of one time in their order.
  unfoldable pub insert_by_time : A → List A → List A
  insert_by_time x [] = x ∷ []
  insert_by_time x (y ∷ ys) = if ltb (time x) (time y) then y ∷ insert_by_time x ys else x ∷ y ∷ ys

  unfoldable pub sort_by_time : List A → List A
  sort_by_time [] = []
  sort_by_time (x ∷ xs) = insert_by_time x (sort_by_time xs)

  abbrev pub is_seen : K → List K → Bool
  is_seen k seen = any (λ j. j == k) seen

  -- The filter, with the keys in `nonceNetworkSet`.
  unfoldable pub txs_to_keep : ℕ → List K → List A → List A
  txs_to_keep limit seen [] = []
  txs_to_keep limit seen (x ∷ xs) =
      let same = txs_to_keep limit seen xs in
      let added = txs_to_keep limit (key x ∷ seen) xs in
      if is_seen (key x) seen
      then x ∷ same
      else if ltb (length seen) limit || not (is_final x)
      then x ∷ added
      else same

  -- The array that is returned; the argument is left sorted.
  abbrev pub trimmed : ℕ → List A → List A
  trimmed limit sorted = reverse (txs_to_keep limit [] sorted)

  abbrev pub trim : ℕ → List A → List A
  trim limit xs = trimmed limit (sort_by_time xs)
