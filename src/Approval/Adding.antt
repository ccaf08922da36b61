-- ===== src/Approval/Adding.antt =====
-- `add` of ApprovalController.ts: when it throws, and what it writes where it does not.
use fork_metamask_core.Common.{
  ◌≡◌, String, Bool, true, false, not, Option, none, some, arith, ◌⊎◌, inl, inr, if◌then◌else◌, eqb,
  any, ◌==◌, string_eq, Bool-cases, Option-cases,
}
use fork_metamask_core.Common.Assoc
use fork_metamask_core.Common.Monad.{ok, err}
use fork_metamask_core.Common.Js.{undefined, truthy, string_of}
use fork_metamask_core.Approval.State.{State, Error, Invalid, internal, resource_unavailable}
use fork_metamask_core.Approval.Queries.{type_count, has_request}
use fork_metamask_core.Approval.Requests.{
  AddOptions, id_of, id_or_fresh, request_of, validate_add_params, register, add,
}

-- `this.#typesExcludedFromRateLimiting.includes(type)`.
abbrev pub is_excluded : String → State → Bool
is_excluded type s = any (λ t. t == type) s.excluded

abbrev pub validation : AddOptions → State → Option Invalid
validation o s =
    validate_add_params (id_or_fresh o.id o.fresh_id) o.origin o.type o.request_data o.request_state
      s

module _ (o : AddOptions) (s : State) where
  abbrev pub type_name : String
  type_name = string_of o.type

  abbrev pub origin_name : String
  origin_name = string_of o.origin

  pub validation_ok :
      validation o s ≡ none
      → (Assoc.get (id_of o) s.approvals ≡ none)
        × ((origin_name == "") ≡ false)
        × (truthy o.origin ≡ true)
        × (truthy o.type ≡ true)
        × (has_request undefined o.origin o.type s
            ≡ ok (not (eqb (type_count s origin_name type_name) 0)))
  unfolding validate_add_params has_request
  validation_ok h = ground arith

  pub add_invalid : (e : Invalid) → validation o s ≡ some e → add o s ≡ (err (internal e), s)
  unfolding add
  add_invalid e h = ground (arith, h)

  pub add_excluded :
      validation o s ≡ none
      → is_excluded type_name s ≡ true
      → add o s ≡ (ok s.next_promise, register (request_of o (id_of o)) s)
  unfolding add
  add_excluded h x = ground (arith, h, x)

  pub add_limited :
      validation o s ≡ none
      → is_excluded type_name s ≡ false
      → add o s ≡ (
          if eqb (type_count s origin_name type_name) 0
          then (ok s.next_promise, register (request_of o (id_of o)) s)
          else (err (resource_unavailable origin_name type_name), s))
  unfolding add
  add_limited h x = ground (arith, h, x, validation_ok h)

  -- What holds where `add` does not throw.
  pub record Admitted : Type 0 where
    pub new_id : Assoc.get (id_of o) s.approvals ≡ none
    pub named_origin : (origin_name == "") ≡ false
    pub within_limit : (is_excluded type_name s ≡ true) ⊎ (type_count s origin_name type_name ≡ 0)

  admitted :
      validation o s ≡ none
      → (is_excluded type_name s ≡ true) ⊎ (type_count s origin_name type_name ≡ 0)
      → Admitted
  admitted h w = record {
    new_id = (validation_ok h).0;
    named_origin = (validation_ok h).1;
    within_limit = w;
  }

  -- A proof rule for `add`: it throws and changes nothing, or it registers the request.
  pub add_outcomes :
      ((e : Error) × (add o s ≡ (err e, s)))
      ⊎ Admitted × (add o s ≡ (ok s.next_promise, register (request_of o (id_of o)) s))
  add_outcomes = elim (Option-cases (validation o s)) [
    | inr (e, h) ↦ inl (internal e, add_invalid e h)
    | inl h ↦ elim (Bool-cases (is_excluded type_name s)) [
      | inl x ↦ inr (admitted h (inl x), add_excluded h x)
      | inr x ↦ elim (Bool-cases (eqb (type_count s origin_name type_name) 0)) [
        | inl z ↦ inr (admitted h (inr (ground (arith, z))), rw z at (add_limited h x))
        | inr z ↦ inl (resource_unavailable origin_name type_name, rw z at (add_limited h x))
      ]
    ]
  ]
