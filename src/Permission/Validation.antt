-- ===== src/Permission/Validation.antt =====
-- The checks of permissions and caveats in PermissionController.ts.
use fork_metamask_core.Common.{
  String, Bool, true, false, not, ◌&&◌, Option, none, some, List, [], ◌∷◌, if◌then◌else◌, any,
  length, eqb, get_or, is_some, ◌==◌, string_eq,
}
use fork_metamask_core.Common.Assoc.{Assoc}
use fork_metamask_core.Common.Assoc
use fork_metamask_core.Common.Monad.{Action, pure, throw}
use fork_metamask_core.Common.Js.{Value, undefined, is_string, string_of}
use fork_metamask_core.Common.JsEq.{value_eq}
use fork_metamask_core.Permission.State.{
  Caveat, RawCaveat, not_plain, plain, raw_caveat, Permission, CaveatsProperty, missing,
  null_caveats, not_array, caveat_array, SubjectType, extension, internal_subject, unknown, website,
  snap, SubjectMetadata, Error, invalid_caveats_property, unrecognized_caveat_type, invalid_caveat,
  invalid_caveat_fields, invalid_caveat_type, caveat_missing_value, caveat_invalid_json,
  forbidden_caveat, duplicate_caveat, caveat_specification_mismatch, method_not_found,
  endowment_does_not_exist, invalid_specification, fatal, CaveatSpecification, Kind,
  restricted_method, endowment, invalid_type, PermissionSpecification, Config,
}

-- The first check that throws; the later ones are not made.
infixr 20 ◌or_else◌
abbrev pub ◌or_else◌ : Option Error → Option Error → Option Error
none or_else f = f
some e or_else f = some e

abbrev pub throw_if : Bool → Error → Option Error
throw_if b e = if b then some e else none

abbrev pub or_throw : {S : Type 0} → Option Error → Action S Error (Unit {0})
or_throw none = pure tt
or_throw (some e) = throw e

abbrev pub includes : List String → String → Bool
includes xs x = any (λ y. y == x) xs

abbrev pub subject_type_eqb : SubjectType → SubjectType → Bool
subject_type_eqb extension extension = true
subject_type_eqb internal_subject internal_subject = true
subject_type_eqb unknown unknown = true
subject_type_eqb website website = true
subject_type_eqb snap snap = true
subject_type_eqb _ _ = false

-- `caveat.type` of a value that may be no plain object.
abbrev pub raw_type : RawCaveat → Value
raw_type not_plain = undefined
raw_type (plain fields) = get_or (Assoc.get "type" fields) undefined

abbrev pub run_validator :
    Option (RawCaveat → String → String → Option Error) → RawCaveat → String → String → Option Error
run_validator none caveat origin target = none
run_validator (some f) caveat origin target = f caveat origin target

-- `validatePermissionSpecifications`, for one allowed caveat, for the list, and for the table.
abbrev pub is_mismatch : Kind → CaveatSpecification → Bool
is_mismatch (restricted_method m) spec = not (is_some spec.decorator)
is_mismatch (endowment g) spec = is_some spec.decorator
is_mismatch invalid_type spec = false

abbrev pub check_allowed : Assoc String CaveatSpecification → Kind → List String → Option Error
check_allowed specs kind [] = none
check_allowed specs kind (type ∷ types) = elim (Assoc.get type specs) [
  | none ↦ some (unrecognized_caveat_type type)
  | some spec ↦
      throw_if (is_mismatch kind spec) (caveat_specification_mismatch type)
      or_else check_allowed specs kind types
]

abbrev pub is_invalid : Kind → Bool
is_invalid invalid_type = true
is_invalid _ = false

abbrev pub check_specification :
    Assoc String CaveatSpecification → String → PermissionSpecification → Option Error
check_specification specs name spec =
    throw_if (is_invalid spec.kind) (invalid_specification name)
    or_else throw_if (name == "") (invalid_specification name)
    or_else throw_if (not (name == spec.target_name)) (invalid_specification name)
    or_else check_allowed specs spec.kind (get_or spec.allowed_caveats [])

unfoldable pub validate_permission_specifications :
    Assoc String CaveatSpecification → Assoc String PermissionSpecification → Option Error
validate_permission_specifications specs [] = none
validate_permission_specifications specs ((name, spec) ∷ rest) =
    check_specification specs name spec or_else validate_permission_specifications specs rest

module _ (config : Config) where
  abbrev pub target_exists : String → Bool
  target_exists target = Assoc.has target config.permission_specifications

  abbrev pub check_value :
      RawCaveat → Assoc String Value → String → String → CaveatSpecification → Option Error
  check_value caveat fields origin target spec =
      throw_if (get_or (Assoc.get "value" fields) undefined == undefined)
        (caveat_missing_value origin target)
      or_else throw_if (not (config.is_valid_json (get_or (Assoc.get "value" fields) undefined)))
          (caveat_invalid_json origin target)
      or_else run_validator spec.validator caveat origin target

  abbrev pub check_fields : Assoc String Value → String → String → Option Error
  check_fields fields origin target =
      throw_if (not (eqb (length fields) 2)) (invalid_caveat_fields origin target)
      or_else throw_if (not (is_string (raw_type (plain fields))))
          (invalid_caveat_type origin target)
      or_else elim (Assoc.get (string_of (raw_type (plain fields))) config.caveat_specifications) [
        | none ↦ some (unrecognized_caveat_type (string_of (raw_type (plain fields))))
        | some spec ↦ check_value (plain fields) fields origin target spec
      ]

  -- `validateCaveat`; `none` where it does not throw.
  unfoldable pub validate_caveat : RawCaveat → String → String → Option Error
  validate_caveat not_plain origin target = some (invalid_caveat origin target)
  validate_caveat (plain fields) origin target = check_fields fields origin target

  abbrev pub wrong_subject : PermissionSpecification → String → Error
  wrong_subject spec origin = elim spec.kind [
    | restricted_method m ↦ method_not_found spec.target_name
    | endowment g ↦ endowment_does_not_exist spec.target_name origin
    | invalid_type ↦ endowment_does_not_exist spec.target_name origin
  ]

  abbrev pub is_subject_type : List SubjectType → Option SubjectType → Bool
  is_subject_type types none = false
  is_subject_type types (some t) = any (λ u. subject_type_eqb u t) types

  abbrev pub subject_type_of : Option SubjectMetadata → Option SubjectType
  subject_type_of none = none
  subject_type_of (some m) = m.subject_type

  abbrev pub check_subject_type : PermissionSpecification → String → List SubjectType → Option Error
  check_subject_type spec origin [] = none
  check_subject_type spec origin (t ∷ ts) =
      throw_if
        (not (is_subject_type (t ∷ ts) (subject_type_of (config.get_subject_metadata origin))))
        (wrong_subject spec origin)

  -- `allowedCaveats?.includes(type)`, which no value but a string passes.
  abbrev pub is_allowed : Option (List String) → Value → Bool
  is_allowed none type = false
  is_allowed (some types) type = is_string type && includes types (string_of type)

  -- The loop over the caveats, with the types that it has seen.
  unfoldable pub check_caveats :
      Bool → Option (List String) → String → String → List Value → List RawCaveat → Option Error
  check_caveats perform allowed origin target seen [] = none
  check_caveats perform allowed origin target seen (c ∷ cs) =
      (if perform then validate_caveat c origin target else none)
      or_else throw_if (not (is_allowed allowed (raw_type c)))
          (forbidden_caveat (raw_type c) origin target)
      or_else throw_if (any (λ t. t == raw_type c) seen)
          (duplicate_caveat (raw_type c) origin target)
      or_else check_caveats perform allowed origin target (raw_type c ∷ seen) cs

  abbrev pub check_property :
      Bool → PermissionSpecification → String → CaveatsProperty → Option Error
  check_property perform spec origin missing = none
  check_property perform spec origin null_caveats = none
  check_property perform spec origin not_array =
      some (invalid_caveats_property origin spec.target_name)
  check_property perform spec origin (caveat_array []) =
      some (invalid_caveats_property origin spec.target_name)
  check_property perform spec origin (caveat_array (c ∷ cs)) =
      check_caveats perform spec.allowed_caveats origin spec.target_name [] (c ∷ cs)

  abbrev pub check_permission :
      Option (Permission → String → String → Option Error)
      → Option Permission
      → String
      → String
      → Option Error
  check_permission none p origin target = none
  check_permission (some f) none origin target = none
  check_permission (some f) (some p) origin target = f p origin target

  -- `validatePermission`, with the property `caveats` of the permission, and the permission itself
  -- where its validator is to be invoked.
  unfoldable pub validate_permission :
      PermissionSpecification → CaveatsProperty → String → Option Permission → Bool → Option Error
  validate_permission spec caveats origin invoked perform_caveat_validation =
      check_subject_type spec origin spec.subject_types
      or_else check_property perform_caveat_validation spec origin caveats
      or_else check_permission spec.validator invoked origin spec.target_name

  -- The property of a permission that is there.
  abbrev pub raw_caveats : List Caveat → List RawCaveat
  raw_caveats [] = []
  raw_caveats (c ∷ cs) = raw_caveat c ∷ raw_caveats cs

  abbrev pub caveats_property : Option (List Caveat) → CaveatsProperty
  caveats_property none = null_caveats
  caveats_property (some cs) = caveat_array (raw_caveats cs)

  unfoldable pub validate_modified_permission : Permission → String → Option Error
  validate_modified_permission p origin =
      elim (Assoc.get p.parent_capability config.permission_specifications) [
        | none ↦ some (fatal p.parent_capability)
        | some spec ↦ validate_permission spec (caveats_property p.caveats) origin (some p) true
      ]
