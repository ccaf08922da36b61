-- ===== src/Permission/RpcMethods.antt =====
-- The implementations of wallet_requestPermissions and wallet_getPermissions (rpc-methods of
-- packages/permission-controller/src).
use fork_metamask_core.Common.{
  ℕ, ◌≡◌, refl, ap, ◌∙◌, String, Bool, not, ◌||◌, Option, none, some, List, [], if◌then◌else◌,
  arith, inl, inr, Bool-cases, Option-cases, string_eq, ◌==◌, get_or,
}
use fork_metamask_core.Common.Assoc.{Assoc, values, get-set_self}
use fork_metamask_core.Common.Monad.{Result, ok, err, and_then, lift, pure, throw, ◌>>=◌, for_each}
use fork_metamask_core.Common.Js.{Value, number, str, truthy, is_string}
use fork_metamask_core.Permission.State.{
  Permission, RawPermission, Subjects, State, Error, invalid_params, invalid_request, Config,
}
use fork_metamask_core.Permission.Subjects.{M, get_permissions}
use fork_metamask_core.Permission.Grants.{grant_one, kept_permissions, granted, grant_permissions}
use fork_metamask_core.Permission.Requests.{
  RawPermissions, table, RawApproval, validate_requested_permissions, validate_approved_permissions,
  get_side_effects, execute_side_effects, finish_request, request_permissions,
}

-- The parameters of a request: no array, or an array by its first entry.
pub data Params : Type 0 where
  no_array : Params
  first_entry : RawPermissions → Params

-- The hook `requestPermissionsForOrigin`, and `String` of a number.
module _ (request_for_origin : RawPermissions → String → M (Assoc String Permission))
    (text : ℕ → String) where
  -- `String(id)` of an id that is valid.
  abbrev pub valid_id : Value → Option String
  valid_id (number n) = some (text n)
  valid_id (str s) = if s == "" then none else some s
  valid_id _ = none

  abbrev pub requested_with : Option String → Params → M (List Permission)
  requested_with none params = throw invalid_request
  requested_with (some id) no_array = throw invalid_params
  requested_with (some id) (first_entry RawPermissions.not_plain) = throw invalid_params
  requested_with (some id) (first_entry (table t)) =
      request_for_origin (table t) id >>= λ permissions. pure (values permissions)

  -- `requestPermissionsImplementation`: the result, or the error that it ends with or throws.
  unfoldable pub request_permissions_implementation : Value → Params → M (List Permission)
  request_permissions_implementation id params = requested_with (valid_id id) params

-- `getPermissionsImplementation`, with `getPermissions` of an origin for its hook.
abbrev pub get_permissions_implementation : String → Subjects → List Permission
get_permissions_implementation origin d = values (get_or (get_permissions origin d) [])

-- What a grant gives is what the table then has.
abbrev AreGiven : String → Result Error (Assoc String Permission) × State → Type 0
AreGiven origin (ok permissions, s) = get_permissions origin s.subjects ≡ some permissions
AreGiven origin (err e, s) = Unit

module _ (config : Config) (ids : String → String) (now : ℕ) where
  grant_permissions-AreGiven :
      (origin : String) (data' : Value) (preserve : Bool) (xs : Assoc String RawPermission)
      (s : State)
      → AreGiven origin (grant_permissions config ids now (str origin) data' preserve xs s)
  unfolding grant_permissions
  grant_permissions-AreGiven origin data' preserve xs s =
      elim (Bool-cases (not (truthy (str origin)) || not (is_string (str origin)))) [
        | inl y ↦ rw (y, grant_permissions) tt
        | inr n ↦
            rw (n, grant_permissions)
              (after (
                for_each (grant_one config ids now origin data') xs
                  (kept_permissions config ids now preserve origin s.subjects)))
      ]
    where
      after :
          (r : Result Error (Unit {0}) × Assoc String Permission)
          → AreGiven origin (granted config ids now origin r s)
      after (err e, m) = tt
      after (ok u, m) =
          ground
            (arith, get-set_self origin (record { origin = origin; permissions = m }) s.subjects)

  finish_request-AreGiven :
      (id origin : String) (preserve : Bool) (request : Value) (a : RawApproval) (s : State)
      → AreGiven origin (finish_request config ids now id origin preserve request a s)
  unfolding finish_request
  finish_request-AreGiven id origin preserve request a s =
      checked (validate_approved_permissions config id origin a) refl
    where
      after :
          (t : Assoc String RawPermission) (data' : Value) (r : Result Error (Unit {0}) × State)
          → AreGiven origin
              (and_then r (λ _. grant_permissions config ids now (str origin) data' preserve t))
      after t data' (err e, u) = tt
      after t data' (ok w, u) = grant_permissions-AreGiven origin data' preserve t u

      checked :
          (r : Result Error (Assoc String RawPermission × Value))
          → validate_approved_permissions config id origin a ≡ r
          → AreGiven origin (finish_request config ids now id origin preserve request a s)
      checked (err e) h = rw (h, finish_request) tt
      checked (ok (t, data')) h =
          rw (h, finish_request)
            (after t data' (execute_side_effects config request (get_side_effects config t) s))

  request_permissions-AreGiven :
      (id origin : String) (preserve : Bool) (permissions : RawPermissions) (request : Value)
      → (answer : Result Error RawApproval) (s : State)
      → AreGiven origin
          (request_permissions config ids now id origin preserve permissions request answer s)
  unfolding request_permissions
  request_permissions-AreGiven id origin preserve permissions request answer s =
      elim (Option-cases (validate_requested_permissions config origin permissions)) [
        | inr (e, n) ↦ rw (n, request_permissions) tt
        | inl n ↦ rw (n, request_permissions) (answered answer)
      ]
    where
      answered :
          (a : Result Error RawApproval)
          → AreGiven origin
              (and_then (lift a s) (finish_request config ids now id origin preserve request))
      answered (err e) = tt
      answered (ok a) = finish_request-AreGiven id origin preserve request a s

  module _ (origin : String) (preserve : Bool) (request : Value) (answer : Result Error RawApproval)
      (text : ℕ → String) where
    abbrev pub for_origin : RawPermissions → String → M (Assoc String Permission)
    for_origin permissions id =
        request_permissions config ids now id origin preserve permissions request answer

    -- The method with requestPermissions for its hook.
    abbrev pub implemented : Value → Params → M (List Permission)
    implemented = request_permissions_implementation for_origin text

    given :
        (r : Result Error (Assoc String Permission) × State) (ps : List Permission)
        → AreGiven origin r
        → (and_then r (λ permissions. pure (values permissions))).0 ≡ ok ps
        → get_permissions_implementation origin
            (and_then r (λ permissions. pure (values permissions))).1.subjects
          ≡ ps
    given (err e, s) ps a h = absurd (ground (arith, h))
    given (ok m, s) ps a h =
        let same : values m ≡ ps = ground (arith, h) in ap (λ w. values (get_or w [])) a ∙ same

    requested_given :
        (id : Option String) (params : Params) (s : State) (ps : List Permission)
        → (requested_with for_origin text id params s).0 ≡ ok ps
        → get_permissions_implementation origin
            (requested_with for_origin text id params s).1.subjects
          ≡ ps
    requested_given none params s ps h = absurd (ground (arith, h))
    requested_given (some id) no_array s ps h = absurd (ground (arith, h))
    requested_given (some id) (first_entry RawPermissions.not_plain) s ps h =
        absurd (ground (arith, h))
    requested_given (some id) (first_entry (table t)) s ps h =
        given (for_origin (table t) id s) ps
          (request_permissions-AreGiven id origin preserve (table t) request answer s) h

-- What an origin is given is what it then gets: where wallet_requestPermissions ends with a result,
-- whatever side effects and factories made it, wallet_getPermissions of the origin gives the same
-- permissions in the same order.
pub get_permissions-request_permissions :
    (config : Config) (ids : String → String) (now : ℕ) (text : ℕ → String)
    → (origin : String) (preserve : Bool) (request : Value) (answer : Result Error RawApproval)
    → (id : Value) (params : Params) (s : State) (ps : List Permission)
    → (implemented config ids now origin preserve request answer text id params s).0 ≡ ok ps
    → get_permissions_implementation origin
        (implemented config ids now origin preserve request answer text id params s).1.subjects
      ≡ ps
unfolding request_permissions_implementation
get_permissions-request_permissions config ids now text origin preserve request answer id params s
      ps h =
    let hook = for_origin config ids now origin preserve request answer text in
    requested_given config ids now origin preserve request answer text (valid_id hook text id)
      params s ps h
