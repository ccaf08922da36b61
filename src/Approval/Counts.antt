-- ===== src/Approval/Counts.antt =====
-- What the writes of ApprovalController.ts do to the counts by origin and type.
use fork_metamask_core.Common.{
  ℕ, ◌+◌, ◌-◌, ◌≤◌, ◌≡◌, String, Bool, false, ◌&&◌, some, List, [], ◌∷◌, arith, get_or, count, bit,
  ◌==◌, string_eq,
}
use fork_metamask_core.Common.Assoc.{Assoc, values, get-set, get-delete}
use fork_metamask_core.Common.Assoc
use text.Mathlib.TextEquality.{eq_iff}
use fork_metamask_core.Approval.State.{State, ApprovalRequest}
use fork_metamask_core.Approval.Queries.{sum, type_count, origin_count, has_type, has_origin}
use fork_metamask_core.Approval.Requests.{add_pending_approval_origin, released}

-- The requests of one origin and one type.
abbrev pub has_both : String → String → ApprovalRequest → Bool
has_both o t a = has_origin o a && has_type t a

pub sum-set :
    (t : String) (v : ℕ) (m : Assoc String ℕ)
    → sum (values (Assoc.set t v m)) + get_or (Assoc.get t m) 0 ≡ sum (values m) + v
unfolding Assoc.set Assoc.get
sum-set t v [] = omega arith
sum-set t v ((j, w) ∷ m) = ground (arith, sum-set t v m)

pub get-le-sum : (t : String) (m : Assoc String ℕ) → get_or (Assoc.get t m) 0 ≤ sum (values m)
unfolding Assoc.get
get-le-sum t [] = omega arith
get-le-sum t ((j, w) ∷ m) = ground (arith, get-le-sum t m)

pub count_both-le :
    (o t : String) (l : List ApprovalRequest) → count (has_both o t) l ≤ count (has_origin o) l
count_both-le o t [] = omega arith
count_both-le o t (a ∷ l) = ground (arith, count_both-le o t l)

module _ (o t : String) (s : State) (o' : String) where
  pub type_count-add :
      (t' : String)
      → type_count (add_pending_approval_origin o t s) o' t'
        ≡ type_count s o' t' + bit (o == o' && t == t')
  unfolding type_count add_pending_approval_origin
  type_count-add t' =
      let m = get_or (Assoc.get o s.origins) [] in
      let n = get_or (Assoc.get t m) 0 + 1 in
      ground (
        arith,
        get-set o o' (Assoc.set t n m) s.origins,
        get-set t t' n m,
        eq_iff o o',
        eq_iff t t',
      )

  pub origin_count-add :
      origin_count (add_pending_approval_origin o t s) o' ≡ origin_count s o' + bit (o == o')
  unfolding origin_count add_pending_approval_origin
  origin_count-add =
      let m = get_or (Assoc.get o s.origins) [] in
      let n = get_or (Assoc.get t m) 0 + 1 in
      ground (arith, get-set o o' (Assoc.set t n m) s.origins, sum-set t n m, eq_iff o o')

pub get-add-le-sum :
    (t t' : String) (m : Assoc String ℕ)
    → (t == t') ≡ false
    → get_or (Assoc.get t m) 0 + get_or (Assoc.get t' m) 0 ≤ sum (values m)
unfolding Assoc.get
get-add-le-sum t t' [] h = omega arith
get-add-le-sum t t' ((j, w) ∷ m) h = ground (
  arith,
  eq_iff j t,
  eq_iff j t',
  eq_iff t t',
  get-le-sum t m,
  get-le-sum t' m,
  get-add-le-sum t t' m,
)

module _ (o t : String) (n : ℕ) (m : Assoc String ℕ) (s : State) (o' : String) where
  abbrev after : State
  after = released o t (sum (values m)) n m s

  pub type_count-released :
      (t' : String)
      → Assoc.get o s.origins ≡ some m
      → Assoc.get t m ≡ some n
      → 1 ≤ n
      → type_count after o' t' + bit (o == o' && t == t') ≡ type_count s o' t'
  unfolding type_count Assoc.get
  type_count-released t' hm hn pos = ground (
    arith,
    get-set o o' (Assoc.set t (n - 1) m) s.origins,
    get-delete o o' s.origins,
    get-set t t' (n - 1) m,
    get-le-sum t' m,
    get-add-le-sum t t' m,
    eq_iff o o',
    eq_iff t t',
  )

  pub origin_count-released :
      Assoc.get o s.origins ≡ some m
      → Assoc.get t m ≡ some n
      → 1 ≤ n
      → origin_count after o' + bit (o == o') ≡ origin_count s o'
  unfolding origin_count Assoc.get
  origin_count-released hm hn pos = ground (
    arith,
    get-set o o' (Assoc.set t (n - 1) m) s.origins,
    get-delete o o' s.origins,
    sum-set t (n - 1) m,
    get-le-sum t m,
    eq_iff o o',
  )
