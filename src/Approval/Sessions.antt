-- ===== src/Approval/Sessions.antt =====
-- Approval flows of ApprovalController.ts as a stack.
use fork_metamask_core.Common.{
  ℕ, suc, ◌≡◌, refl, ap, String, Bool, true, Option, some, List, [], ◌∷◌, ◌++◌, arith,
  if◌then◌else◌, get_or, any, last?, drop_last, ◌==◌, string_eq, beq_refl,
}
use fork_metamask_core.Common.Monad.{ok, err, ◌>>=◌, ◌>>◌, pure}
use fork_metamask_core.Approval.State.{
  State, ApprovalFlow, M, no_flows, end_invalid_flow, missing_flow,
}
use fork_metamask_core.Approval.Flows.{
  start_flow, end_flow, flow_ids, set_loading_text, set_flow_loading_text, with_flows,
}

last?-append {ℓ} : {A : Type ℓ} (xs : List A) (x : A) → last? (xs ++ x ∷ []) ≡ some x
last?-append [] x = refl
last?-append (y ∷ []) x = refl
last?-append (y ∷ z ∷ xs) x = last?-append (z ∷ xs) x

drop_last-append {ℓ} : {A : Type ℓ} (xs : List A) (x : A) → drop_last (xs ++ x ∷ []) ≡ xs
drop_last-append [] x = refl
drop_last-append (y ∷ []) x = refl
drop_last-append (y ∷ z ∷ xs) x = ap (◌∷◌ y) (drop_last-append (z ∷ xs) x)

-- `endFlow` with no flow throws; else it pops the last flow if the id is that flow's, and throws with
-- all ids if it is not.
pub end_flow-empty :
    (id : String) (s : State) → s.approval_flows ≡ [] → end_flow id s ≡ (err no_flows, s)
unfolding end_flow
end_flow-empty id s e = ground (arith, e)

pub end_flow-append :
    (id : String) (s : State) (fs : List ApprovalFlow) (f : ApprovalFlow)
    → s.approval_flows ≡ fs ++ f ∷ []
    → end_flow id s ≡ (
        if id == f.id
        then (ok tt, with_flows fs s.shown s)
        else (err (end_invalid_flow id (flow_ids (fs ++ f ∷ []))), s))
unfolding end_flow
end_flow-append id s fs f e = ground (arith, e, last?-append fs f, drop_last-append fs f)

abbrev pub started : Option String → Option String → String → ApprovalFlow
started id loading fresh = record { id = get_or id fresh; loading_text = loading }

start_flow_lem :
    (id loading : Option String) (shown : Option Bool) (fresh : String) (s : State)
    → start_flow id loading shown fresh s ≡ (
      ok (started id loading fresh),
      with_flows
          (s.approval_flows ++ started id loading fresh ∷ [])
          (if get_or shown true then suc s.shown else s.shown)
          s,
    )
unfolding start_flow
start_flow_lem id loading shown fresh s = ground arith

-- What a client does that ends each flow after those it started inside.
pub data Session : Type 0 where
  done : Session
  nest : Option String → Option String → Option Bool → String → Session → Session → Session

unfoldable pub play : Session → M (Unit {0})
play done = pure tt
play (nest id loading shown fresh inner next) = do
  flow ← start_flow id loading shown fresh
  play inner
  end_flow flow.id
  play next

-- How often a session shows the display.
abbrev pub shows_of : Session → ℕ → ℕ
shows_of done n = n
shows_of (nest id loading shown fresh inner next) n =
    shows_of next (shows_of inner (if get_or shown true then suc n else n))

-- Well nested calls of `startFlow` and `endFlow` never throw, from any state, and leave every flow as
-- it was.
pub play_lem :
    (c : Session) (s : State)
    → play c s ≡ (ok tt, with_flows s.approval_flows (shows_of c s.shown) s)
unfolding play
play_lem done s = refl
play_lem (nest id loading shown fresh inner next) s =
    let f = started id loading fresh in
    let n = if get_or shown true then suc s.shown else s.shown in
    let s1 = with_flows (s.approval_flows ++ f ∷ []) n s in
    let s2 = with_flows (s.approval_flows ++ f ∷ []) (shows_of inner n) s in
    let s3 = with_flows s.approval_flows (shows_of inner n) s in
    ground (
      arith,
      start_flow_lem id loading shown fresh s,
      play_lem inner s1,
      end_flow-append f.id s2 s.approval_flows f refl,
      beq_refl f.id,
      play_lem next s3,
    )

set_loading_text-ids :
    (id : String) (t : Option String) (fs : List ApprovalFlow)
    → flow_ids (set_loading_text id t fs) ≡ flow_ids fs
unfolding set_loading_text
set_loading_text-ids id t [] = refl
set_loading_text-ids id t (f ∷ fs) = ground (arith, set_loading_text-ids id t fs)

-- `setFlowLoadingText` changes no id and no order, and throws exactly where no flow has the id.
pub set_flow_loading_text_lem :
    (id : String) (t : Option String) (s : State)
    → let r = set_flow_loading_text id t s in
      (flow_ids r.1.approval_flows ≡ flow_ids s.approval_flows)
      × (r.0 ≡ (if any (λ f. f.id == id) s.approval_flows then ok tt else err (missing_flow id)))
unfolding set_flow_loading_text
set_flow_loading_text_lem id t s =
    (ground (arith, set_loading_text-ids id t s.approval_flows), ground arith)
