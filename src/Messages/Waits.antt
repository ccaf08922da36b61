-- ===== src/Messages/Waits.antt =====
-- The promises of `waitForFinishStatus` of AbstractMessageManager.ts: each is settled once at most.
use fork_metamask_core.Common.{
  none, ℕ, ◌+◌, ◌≡◌, refl, String, Bool, not, List, [], ◌∷◌, ◌++◌, keep, count, bit, ltb, eqb, ◌==◌,
  string_eq, nat_eq, arith, inl, inr, Bool-cases,
}
use fork_metamask_core.Messages.Manager.{
  Message, Waiter, Settlement, Manager, init, waits_for, settle_each, emit, save_message_list,
  wait_for_finish_status, waited_id,
}
use fork_metamask_core.Messages.Saved.{Call, serve_all, IsKept, serve_all-kept}

abbrev pub is_promise : ℕ → Waiter → Bool
is_promise p w = eqb w.promise p

abbrev pub is_settlement : ℕ → ℕ × Settlement → Bool
is_settlement p x = eqb x.0 p

count-append :
    {A : Type 0} (p : A → Bool) (xs ys : List A) → count p (xs ++ ys) ≡ count p xs + count p ys
count-append p [] ys = omega arith
count-append p (x ∷ xs) ys = omega (arith, count-append p xs ys)

-- The listeners of an event and the others are all of them.
count-split :
    (p : ℕ) (id : String) (m : Message) (ws : List Waiter)
    → count (is_promise p) (keep (λ w. not (waits_for id w)) ws)
        + count (is_settlement p) (settle_each m (keep (waits_for id) ws))
      ≡ count (is_promise p) ws
count-split p id m [] = refl
count-split p id m (w ∷ ws) = ground (arith, count-split p id m ws)

-- A promise that was made waits or was settled once, and no other does.
abbrev pub IsSettledOnce : ℕ → Manager → Type 0
IsSettledOnce p s =
    count (is_promise p) s.waiters + count (is_settlement p) s.settlements
    ≡ bit (ltb p s.next_promise)

IsSettledOnce-kept : (p : ℕ) → IsKept (IsSettledOnce p)
unfolding save_message_list emit wait_for_finish_status
IsSettledOnce-kept p = record {
  saves = λ s ms b v. v;
  emits = λ s id event m v. elim (Bool-cases (event == "finished")) [
    | inl y ↦ rw (y) ground (
      arith,
      v,
      count-split p id m s.waiters,
      count-append (is_settlement p) (settle_each m (keep (waits_for id) s.waiters)) s.settlements,
    )
    | inr n ↦ rw (n) v
  ];
  waits_on = λ s params name v.
      let w : Waiter = record {
        promise = s.next_promise;
        id = waited_id params.metamask_id;
        params = record params { metamask_id = none };
        message_name = name;
      } in
      ground (arith, v, count-append (is_promise p) s.waiters (w ∷ []));
}

-- From a new manager and after any calls, each promise that waitForFinishStatus made waits for its
-- event or was settled, once; no other promise waits or was settled.
pub promises-serve_all :
    (statuses : List String) (cs : List Call) (p : ℕ)
    → let s = serve_all cs (init statuses) in
      count (is_promise p) s.waiters + count (is_settlement p) s.settlements
      ≡ bit (ltb p s.next_promise)
promises-serve_all statuses cs p =
    serve_all-kept (IsSettledOnce p) (IsSettledOnce-kept p) cs (init statuses) (ground arith)
