-- ===== src/Messages/Finish.antt =====
-- How a message of AbstractMessageManager.ts ends, and what those who wait for it are told.
use text.Mathlib.TextEquality.{eq_iff}
use fork_metamask_core.Common.{
  ℕ, ◌≡◌, ◌≢◌, refl, String, Bool, not, ◌||◌, some, List, [], ◌∷◌, ◌++◌, if◌then◌else◌, keep, find,
  ◌==◌, string_eq, arith, inl, inr, Bool-cases,
}
use fork_metamask_core.Messages.Manager.{
  Message, Manager, Waiter, Settlement, resolves, get_message, has_id, replaced, waits_for,
  settlement, settle_each, save_message_list, update_message, emit, status_set, set_message_status,
  set_result, set_message_status_signed, set_message_status_and_result, is_finish,
}

find-id : (id : String) (m : Message) (ms : List Message) → find (has_id id) ms ≡ some m → m.id ≡ id
find-id id m [] h = absurd (ground (arith, h))
find-id id m (x ∷ xs) h = ground (arith, h, find-id id m xs, eq_iff x.id id)

-- A message is found as it was written last.
find-replaced :
    (id : String) (m n : Message) (ms : List Message)
    → find (has_id id) ms ≡ some m
    → n.id ≡ id
    → find (has_id id) (replaced n ms) ≡ some n
find-replaced id m n [] h e = absurd (ground (arith, h))
find-replaced id m n (x ∷ xs) h e =
    ground (arith, h, e, find-replaced id m n xs, eq_iff x.id id, eq_iff n.id id, eq_iff x.id n.id)

find_other-replaced :
    (id : String) (n : Message) (ms : List Message)
    → n.id ≢ id
    → find (has_id id) (replaced n ms) ≡ find (has_id id) ms
find_other-replaced id n [] d = refl
find_other-replaced id n (x ∷ xs) d =
    ground (arith, d, find_other-replaced id n xs, eq_iff x.id id, eq_iff n.id id, eq_iff x.id n.id)

-- Those who wait for an id once a status is set, and the settlements of the promises.
abbrev pub ends : String → Manager → Bool
ends status s = is_finish status s || status == "finished"

kept_twice :
    (id : String) (m n : Message) (ws : List Waiter)
    → (keep (waits_for id) (keep (λ w. not (waits_for id w)) ws) ≡ [])
      × (keep (λ w. not (waits_for id w)) (keep (λ w. not (waits_for id w)) ws)
          ≡ keep (λ w. not (waits_for id w)) ws)
kept_twice id m n [] = (refl, refl)
kept_twice id m n (w ∷ ws) = ground (arith, kept_twice id m n ws)

-- Setting the status of a message that is there: the first message of the id has the status, other
-- ids are found as before, and where the status is a finish, or the word finished, each one who
-- waits for the id is told of the message, in order, and nobody else; else nobody is.
pub set_message_status_lem :
    (id status : String) (m : Message) (s : Manager) (j : String)
    → get_message id s ≡ some m
    → let n = record m { status = status } in
      let t = (set_message_status id status s).1 in
      (get_message j t ≡ (if id == j then some n else get_message j s))
      × (t.waiters
          ≡ (if ends status s then keep (λ w. not (waits_for id w)) s.waiters else s.waiters))
      × (t.settlements ≡ (
          if ends status s
          then settle_each n (keep (waits_for id) s.waiters) ++ s.settlements
          else s.settlements))
unfolding set_message_status status_set update_message save_message_list emit
set_message_status_lem id status m s j e =
    let n = record m { status = status } in
    let i : m.id ≡ id = find-id id m s.messages e in
    let k = kept_twice id n n s.waiters in
    (
      elim (Bool-cases (id == j)) [
        | inl y ↦
            let same : id ≡ j = (eq_iff id j).0 y in
            ground (arith, e, y, same, i, find-replaced id m n s.messages e i)
        | inr d ↦ ground (
          arith,
          e,
          i,
          d,
          find_other-replaced j n s.messages (λ f. ground (arith, f, i, d, eq_iff id j)),
        )
      ],
      ground (arith, e, k),
      ground (arith, e, k),
    )

-- What each of some listeners is told.
abbrev pub told : Settlement → List Waiter → List (ℕ × Settlement)
told x [] = []
told x (w ∷ ws) = (w.promise, x) ∷ told x ws

settle_each-signed :
    (m : Message) (sig : String) (ws : List Waiter)
    → m.status ≡ "signed"
    → m.raw_sig ≡ some sig
    → settle_each m ws ≡ told (resolves (some sig)) ws
unfolding settlement
settle_each-signed m sig [] h e = refl
settle_each-signed m sig (w ∷ ws) h e =
    ground (arith, h, e, eq_iff m.status "signed", settle_each-signed m sig ws h e)

-- Signing a message that is there: each one who waits for its id is told the signature, in order,
-- and waits no longer; nobody else is told or forgotten.
pub set_message_status_signed_lem :
    (id sig : String) (m : Message) (s : Manager)
    → get_message id s ≡ some m
    → let t = (set_message_status_signed id sig s).1 in
      (t.waiters ≡ keep (λ w. not (waits_for id w)) s.waiters)
      × (t.settlements
          ≡ told (resolves (some sig)) (keep (waits_for id) s.waiters) ++ s.settlements)
unfolding set_message_status_and_result set_result update_message save_message_list
set_message_status_signed_lem id sig m s e =
    let n = record m { raw_sig = some sig } in
    let u = (set_result id sig s).1 in
    let i : m.id ≡ id = find-id id m s.messages e in
    let f : get_message id u ≡ some n = ground (arith, e, find-replaced id m n s.messages e i) in
    let h = set_message_status_lem id "signed" n u id f in
    let w : u.waiters ≡ s.waiters = ground (arith, e) in
    let x : u.settlements ≡ s.settlements = ground (arith, e) in
    (
      ground (arith, h, w),
      ground (
        arith,
        h,
        w,
        x,
        settle_each-signed (record n { status = "signed" }) sig (keep (waits_for id) s.waiters) refl
            refl,
      ),
    )
