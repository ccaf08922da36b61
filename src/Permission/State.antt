-- ===== src/Permission/State.antt =====
-- The data of PermissionController.ts, Permission.ts, Caveat.ts and errors.ts of
-- packages/permission-controller/src. Functions of clients that are asynchronous stand by what their
-- promise is settled with.
use fork_metamask_core.Common.{ℕ, String, Bool, true, false, Option, List, [], ◌∷◌}
use fork_metamask_core.Common.Assoc.{Assoc}
use fork_metamask_core.Common.Monad.{Result}
use fork_metamask_core.Common.Js.{Value, str}

pub record Caveat : Type 0 where
  pub type : String
  pub value : Value

-- A caveat that is not checked yet: no plain object, or one with these fields.
pub data RawCaveat : Type 0 where
  not_plain : RawCaveat
  plain : Assoc String Value → RawCaveat

abbrev pub raw_caveat : Caveat → RawCaveat
raw_caveat c = plain (("type", str c.type) ∷ ("value", c.value) ∷ [])

-- `PermissionConstraint`.
pub record Permission : Type 0 where
  pub id : String
  pub parent_capability : String
  pub invoker : String
  pub caveats : Option (List Caveat)
  pub date : ℕ

-- `PermissionSubjectEntry` and the state.
pub record Subject : Type 0 where
  pub origin : String
  pub permissions : Assoc String Permission

abbrev pub Subjects : Type 0
Subjects = Assoc String Subject

-- The property `caveats` of an object: missing, null, no array, or an array.
pub data CaveatsProperty : Type 0 where
  missing null_caveats not_array : CaveatsProperty
  caveat_array : List RawCaveat → CaveatsProperty

-- A permission as a client asks for it: `nothing` is null or undefined, `opaque` is another value
-- that is no plain object. `parent_capability` is undefined where it is missing.
pub data RawPermission : Type 0 where
  nothing opaque : RawPermission
  requested : Value → CaveatsProperty → RawPermission

pub data SubjectType : Type 0 where
  extension internal_subject unknown website snap : SubjectType

pub record SubjectMetadata : Type 0 where
  pub origin : String
  pub name : Value
  pub subject_type : Option SubjectType
  pub extension_id : Value
  pub icon_url : Value
  -- The other properties.
  pub rest : Value

-- The error classes; the texts and the data that repeat the arguments are left out.
pub data Error : Type 0 where
  invalid_subject_identifier : Error
  unrecognized_subject : String → Error
  permission_does_not_exist endowment_does_not_exist : String → String → Error
  caveat_does_not_exist caveat_already_exists : String → String → String → Error
  invalid_approved_permission invalid_caveats_property : String → String → Error
  unrecognized_caveat_type : String → Error
  invalid_caveat invalid_caveat_fields invalid_caveat_type : String → String → Error
  caveat_missing_value caveat_invalid_json : String → String → Error
  forbidden_caveat duplicate_caveat : Value → String → String → Error
  caveat_specification_mismatch : String → Error
  request_not_found no_result : String → Error
  method_not_found unauthorized : String → Error
  invalid_params invalid_request : Error
  internal : String → Error
  side_effects_failed : ℕ → Error
  user_rejected type_error : Error
  invalid_specification fatal : String → Error
  unrecognized_mutation : Error
  -- What a client's function throws, and whether it is a `JsonRpcError`.
  thrown : Bool → Value → Error

-- `instanceof JsonRpcError`.
abbrev pub is_json_rpc_error : Error → Bool
is_json_rpc_error (invalid_caveat o t) = true
is_json_rpc_error (method_not_found m) = true
is_json_rpc_error (unauthorized m) = true
is_json_rpc_error invalid_params = true
is_json_rpc_error invalid_request = true
is_json_rpc_error (internal e) = true
is_json_rpc_error (side_effects_failed n) = true
is_json_rpc_error user_rejected = true
is_json_rpc_error (thrown b v) = b
is_json_rpc_error _ = false

-- `RestrictedMethodOptions`.
pub record MethodOptions : Type 0 where
  pub method : String
  pub params : Value
  pub origin : String

abbrev pub RestrictedMethod : Type 0
RestrictedMethod = MethodOptions → Result Error Value

-- `none` in `decorator` is the specification of an endowment's caveat.
pub record CaveatSpecification : Type 0 where
  pub type : String
  pub decorator : Option (RestrictedMethod → Caveat → RestrictedMethod)
  pub validator : Option (RawCaveat → String → String → Option Error)

-- `PermissionOptions`.
pub record PermissionOptions : Type 0 where
  pub target : String
  pub invoker : String
  pub caveats : Option (List Caveat)

pub record SideEffect : Type 0 where
  pub on_permitted : Value → Result Error Value
  pub on_failure : Option (Value → Result Error Value)

-- `permissionType`, with the function that goes with it.
pub data Kind : Type 0 where
  restricted_method : RestrictedMethod → Kind
  endowment : (String → Value → Result Error Value) → Kind
  invalid_type : Kind

-- `subjectTypes` is empty where it is missing.
pub record PermissionSpecification : Type 0 where
  pub kind : Kind
  pub target_name : String
  pub allowed_caveats : Option (List String)
  pub factory : Option (PermissionOptions → Value → Result Error Permission)
  pub validator : Option (Permission → String → String → Option Error)
  pub side_effect : Option SideEffect
  pub subject_types : List SubjectType

-- What a controller has besides its state. `is_valid_json` is a package's, and
-- `get_subject_metadata` the answer of the action of SubjectMetadataController.
pub record Config : Type 0 where
  pub caveat_specifications : Assoc String CaveatSpecification
  pub permission_specifications : Assoc String PermissionSpecification
  pub unrestricted_methods : List String
  pub is_valid_json : Value → Bool
  pub get_subject_metadata : String → Option SubjectMetadata

-- A side effect that was called: of a target that was permitted, or after a failure.
pub data Effect : Type 0 where
  on_permitted on_failure : String → Effect

pub record State : Type 0 where
  pub subjects : Subjects
  pub effects : List Effect
