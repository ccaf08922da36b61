-- ===== src/Common/Assoc.antt =====
-- JavaScript's `Map`, and an object used as a map: a list of entries in insertion order.
use Prim.Native.Nat.{◌+◌}
use mathlib.Core.Path.{◌≡◌, refl, sym, subst}
use mathlib.Core.Logic.{inl, inr}
use mathlib.Core.Bool.{Bool}
use mathlib.Core.List.{List, [], ◌∷◌, ◌++◌}
use mathlib.Core.Option.{Option, none, some}
use native.Mathlib.Omega.{arith}
use fork_metamask_core.Common.Tests.{bit, if◌then◌else◌, is_some, Bool-cases}
use fork_metamask_core.Common.Lists.{length, count, All}
use fork_metamask_core.Common.Classes.{HasEquality, ◌==◌, beq_refl}

abbrev pub Assoc {ℓ κ} : Type ℓ → Type κ → Type (ℓ ⊔ κ)
Assoc K V = List (K × V)

module _ {ℓ κ} {K : Type ℓ} {V : Type κ} where
  abbrev pub keys : Assoc K V → List K
  keys [] = []
  keys ((k, v) ∷ m) = k ∷ keys m

  abbrev pub values : Assoc K V → List V
  values [] = []
  values ((k, v) ∷ m) = v ∷ values m

module _ {ℓ κ} {K : Type ℓ} {V : Type κ} ⦃e : HasEquality K⦄ where
  unfoldable pub get : K → Assoc K V → Option V
  get k [] = none
  get k ((j, v) ∷ m) = if j == k then some v else get k m

  abbrev pub has : K → Assoc K V → Bool
  has k m = is_some (get k m)

  -- A key that is there keeps its place; a new one goes to the end.
  unfoldable pub set : K → V → Assoc K V → Assoc K V
  set k v [] = (k, v) ∷ []
  set k v ((j, w) ∷ m) = if j == k then (j, v) ∷ m else (j, w) ∷ set k v m

  unfoldable pub delete : K → Assoc K V → Assoc K V
  delete k [] = []
  delete k ((j, v) ∷ m) = if j == k then delete k m else (j, v) ∷ delete k m

  -- No key stands twice.
  abbrev pub Distinct : Assoc K V → Type κ
  Distinct [] = Unit
  Distinct ((k, v) ∷ m) = (get k m ≡ none) × Distinct m

  pub get-set :
      (k j : K) (v : V) (m : Assoc K V) → get j (set k v m) ≡ (if k == j then some v else get j m)
  unfolding get set
  get-set k j v [] = refl
  get-set k j v ((i, w) ∷ m) =
      ground (arith, e.same_iff k j, e.same_iff i k, e.same_iff i j, get-set k j v m)

  pub get-delete :
      (k j : K) (m : Assoc K V) → get j (delete k m) ≡ (if k == j then none else get j m)
  unfolding get delete
  get-delete k j [] = ground arith
  get-delete k j ((i, w) ∷ m) =
      ground (arith, e.same_iff k j, e.same_iff i k, e.same_iff i j, get-delete k j m)

  pub get-set_self : (k : K) (v : V) (m : Assoc K V) → get k (set k v m) ≡ some v
  get-set_self k v m = simp (get-set, beq_refl)

  pub get-delete_self : (k : K) (m : Assoc K V) → get k (delete k m) ≡ none
  get-delete_self k m = simp (get-delete, beq_refl)

  pub set-Distinct : (k : K) (v : V) (m : Assoc K V) → Distinct m → Distinct (set k v m)
  unfolding get set
  set-Distinct k v [] d = (refl, tt)
  set-Distinct k v ((i, w) ∷ m) d =
      ground (arith, get-set k i v m, set-Distinct k v m d.1, e.same_iff i k, e.same_iff k i)

  pub delete-Distinct : (k : K) (m : Assoc K V) → Distinct m → Distinct (delete k m)
  unfolding get delete
  delete-Distinct k [] d = tt
  delete-Distinct k ((i, w) ∷ m) d =
      ground (arith, get-delete k i m, delete-Distinct k m d.1, e.same_iff i k, e.same_iff k i)

  -- A key that is not there: `set` appends, `delete` does nothing.
  pub delete_absent : (k : K) (m : Assoc K V) → get k m ≡ none → delete k m ≡ m
  unfolding get delete
  delete_absent k [] h = refl
  delete_absent k ((i, w) ∷ m) h = ground (arith, delete_absent k m)

  pub set_absent : (k : K) (v : V) (m : Assoc K V) → get k m ≡ none → set k v m ≡ m ++ (k, v) ∷ []
  unfolding get set
  set_absent k v [] h = refl
  set_absent k v ((i, w) ∷ m) h = ground (arith, set_absent k v m)

  -- What a new entry adds to a count of the values, and what a deletion takes away.
  pub count-set_absent :
      (p : V → Bool) (k : K) (v : V) (m : Assoc K V)
      → get k m ≡ none
      → count p (values (set k v m)) ≡ count p (values m) + bit (p v)
  unfolding get set
  count-set_absent p k v [] h = omega arith
  count-set_absent p k v ((i, w) ∷ m) h = ground (arith, count-set_absent p k v m)

  pub count-delete :
      (p : V → Bool) (k : K) (v : V) (m : Assoc K V)
      → Distinct m
      → get k m ≡ some v
      → count p (values (delete k m)) + bit (p v) ≡ count p (values m)
  unfolding get delete
  count-delete p k v [] d h = absurd (ground arith)
  count-delete p k v ((i, w) ∷ m) d h =
      ground (arith, e.same_iff i k, delete_absent k m, count-delete p k v m d.1)

  pub length-set_absent :
      (k : K) (v : V) (m : Assoc K V) → get k m ≡ none → length (set k v m) ≡ length m + 1
  unfolding get set
  length-set_absent k v [] h = omega arith
  length-set_absent k v ((i, w) ∷ m) h = ground (arith, length-set_absent k v m)

  pub length-delete :
      (k : K) (v : V) (m : Assoc K V)
      → Distinct m
      → get k m ≡ some v
      → length (delete k m) + 1 ≡ length m
  unfolding get delete
  length-delete k v [] d h = absurd (ground arith)
  length-delete k v ((i, w) ∷ m) d h =
      ground (arith, e.same_iff i k, delete_absent k m, length-delete k v m d.1)

  -- A write to a key that is there.
  pub length-set_present :
      (k : K) (v w : V) (m : Assoc K V) → get k m ≡ some v → length (set k w m) ≡ length m
  unfolding get set
  length-set_present k v w [] h = absurd (ground arith)
  length-set_present k v w ((i, u) ∷ m) h = ground (arith, length-set_present k v w m)

  pub count-set_present :
      (p : V → Bool) (k : K) (v w : V) (m : Assoc K V)
      → get k m ≡ some v
      → p w ≡ p v
      → count p (values (set k w m)) ≡ count p (values m)
  unfolding get set
  count-set_present p k v w [] h same = absurd (ground arith)
  count-set_present p k v w ((i, u) ∷ m) h same = ground (arith, count-set_present p k v w m)

  pub count-set :
      (p : V → Bool) (k : K) (v w : V) (m : Assoc K V)
      → get k m ≡ some v
      → count p (values (set k w m)) + bit (p v) ≡ count p (values m) + bit (p w)
  unfolding get set
  count-set p k v w [] h = absurd (ground arith)
  count-set p k v w ((i, u) ∷ m) h = ground (arith, count-set p k v w m)

  -- A predicate of entries.
  pub All-set {μ} :
      (P : K × V → Type μ) (k : K) (v : V) (m : Assoc K V) → All P m → P (k, v) → All P (set k v m)
  unfolding set
  All-set P k v [] a h = (h, tt)
  All-set P k v ((j, w) ∷ m) a h = elim (Bool-cases (j == k)) [
    | inl y ↦ rw (y) (subst (λ i. P (i, v)) (sym ((e.same_iff j k).0 y)) h, a.1)
    | inr n ↦ rw (n) (a.0, All-set P k v m a.1 h)
  ]

  pub All-delete {μ} : (P : K × V → Type μ) (k : K) (m : Assoc K V) → All P m → All P (delete k m)
  unfolding delete
  All-delete P k [] a = tt
  All-delete P k ((j, w) ∷ m) a = elim (Bool-cases (j == k)) [
    | inl y ↦ rw (y) (All-delete P k m a.1)
    | inr n ↦ rw (n) (a.0, All-delete P k m a.1)
  ]

  pub All-get {μ} :
      (P : K × V → Type μ) (k : K) (v : V) (m : Assoc K V) → All P m → get k m ≡ some v → P (k, v)
  unfolding get
  All-get P k v [] a h = absurd (ground (arith, h))
  All-get P k v ((j, w) ∷ m) a h = elim (Bool-cases (j == k)) [
    | inl y ↦
        let same_key : j ≡ k = (e.same_iff j k).0 y in
        let same_value : w ≡ v = ground (arith, h, y) in
        subst (λ i. P (i, v)) same_key (subst (λ u. P (j, u)) same_value a.0)
    | inr n ↦ All-get P k v m a.1 (ground (arith, h, n))
  ]
