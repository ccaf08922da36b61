-- ===== src/Permission/Metadata.antt =====
-- SubjectMetadataController.ts: what is known of the subjects, those without permissions only for a while.
use fork_metamask_core.Common.{
  ℕ, String, Option, none, some, List, [], ◌∷◌, ◌++◌, if◌then◌else◌, length, ltb, leb, string_eq,
}
use fork_metamask_core.Common.Assoc.{Assoc}
use fork_metamask_core.Common.Assoc
use fork_metamask_core.Common.Js.{or_null}
use fork_metamask_core.Permission.State.{Subjects, SubjectMetadata}
use fork_metamask_core.Permission.Validation.{includes}
use fork_metamask_core.Permission.Subjects.{has_permissions}

-- The state, and the set of the subjects without permissions encountered since startup, in the order
-- of insertion.
pub record Cache : Type 0 where
  pub subject_metadata : Assoc String SubjectMetadata
  pub encountered : List String

-- `getTrimmedState`, with the subjects of PermissionController.
abbrev pub get_trimmed_state :
    Subjects → Assoc String SubjectMetadata → Assoc String SubjectMetadata
get_trimmed_state d [] = []
get_trimmed_state d ((origin, m) ∷ rest) =
    let trimmed = get_trimmed_state d rest in
    if has_permissions origin d then (origin, m) ∷ trimmed else trimmed

-- The constructor, which throws on a limit that is not positive.
unfoldable pub new_cache : ℕ → Subjects → Assoc String SubjectMetadata → Option Cache
new_cache subject_cache_limit d persisted =
    if ltb subject_cache_limit 1
    then none
    else some (record { subject_metadata = get_trimmed_state d persisted; encountered = [] })

unfoldable pub clear_metadata : Cache → Cache
clear_metadata s = record { subject_metadata = []; encountered = [] }

-- What is missing, or falsy, is null. The types of subjects are texts that are not empty.
abbrev pub with_nulls : SubjectMetadata → SubjectMetadata
with_nulls m = record m {
  extension_id = or_null m.extension_id;
  icon_url = or_null m.icon_url;
  name = or_null m.name;
}

abbrev pub add_to_set : String → List String → List String
add_to_set origin set' = if includes set' origin then set' else set' ++ origin ∷ []

-- The set without its first origin, and that origin if it is to be forgotten.
abbrev pub evict : Subjects → List String → List String × Option String
evict d [] = ([], none)
evict d (cached_origin ∷ rest) =
    (rest, if has_permissions cached_origin d then none else some cached_origin)

abbrev pub make_room : ℕ → Subjects → List String → List String × Option String
make_room subject_cache_limit d set' =
    if leb subject_cache_limit (length set') then evict d set' else (set', none)

abbrev pub forget : Option String → Assoc String SubjectMetadata → Assoc String SubjectMetadata
forget none table = table
forget (some origin_to_forget) table = Assoc.delete origin_to_forget table

-- `addSubjectMetadata`.
unfoldable pub add_subject_metadata : ℕ → Subjects → SubjectMetadata → Cache → Cache
add_subject_metadata subject_cache_limit d m s =
    let room = make_room subject_cache_limit d s.encountered in
    record {
      subject_metadata = forget room.1 (Assoc.set m.origin (with_nulls m) s.subject_metadata);
      encountered = add_to_set m.origin room.0;
    }

abbrev pub get_subject_metadata : String → Cache → Option SubjectMetadata
get_subject_metadata origin s = Assoc.get origin s.subject_metadata

unfoldable pub trim_metadata_state : Subjects → Cache → Cache
trim_metadata_state d s = record s { subject_metadata = get_trimmed_state d s.subject_metadata }
