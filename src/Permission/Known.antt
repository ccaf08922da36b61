-- ===== src/Permission/Known.antt =====
-- Which subjects SubjectMetadataController.ts knows, and how many of them.
use text.Mathlib.TextEquality.{eq_iff}
use fork_metamask_core.Common.{
  ℕ, ◌≡◌, ◌≤◌, ◌+◌, refl, ap, subst, ◌∙◌, String, Bool, true, false, not, ◌&&◌, ◌||◌, none, some,
  List, [], ◌∷◌, ◌++◌, if◌then◌else◌, arith, inl, inr, Bool-cases, string_eq, ◌==◌, is_some, length,
  leb, ltb,
}
use fork_metamask_core.Common.Assoc.{Assoc, get-set, get-delete}
use fork_metamask_core.Common.Assoc
use fork_metamask_core.Permission.State.{Subjects, SubjectMetadata}
use fork_metamask_core.Permission.Validation.{includes}
use fork_metamask_core.Permission.Subjects.{has_permissions}
use fork_metamask_core.Permission.Metadata.{
  Cache, get_trimmed_state, new_cache, clear_metadata, with_nulls, add_to_set, make_room, forget,
  add_subject_metadata, get_subject_metadata, trim_metadata_state,
}

-- The subject is the oldest one of a full cache, and has no permissions.
abbrev pub is_oldest : Subjects → String → List String → Bool
is_oldest d j [] = false
is_oldest d j (o ∷ os) = o == j && not (has_permissions o d)

abbrev pub is_forgotten : ℕ → Subjects → String → Cache → Bool
is_forgotten limit d j s = leb limit (length s.encountered) && is_oldest d j s.encountered

get-forget :
    (limit : ℕ) (d : Subjects) (j : String) (os : List String) (m : Assoc String SubjectMetadata)
    → Assoc.get j (forget (make_room limit d os).1 m)
      ≡ (if leb limit (length os) && is_oldest d j os then none else Assoc.get j m)
get-forget limit d j [] m = ground (arith)
get-forget limit d j (o ∷ os) m = elim (Bool-cases (leb limit (length (o ∷ os)))) [
  | inr n ↦ ground (arith, n)
  | inl y ↦ elim (Bool-cases (has_permissions o d)) [
    | inl p ↦ ground (arith, y, p)
    | inr q ↦ ground (arith, y, q, get-delete o j m)
  ]
]

-- What is known after metadata is added: nothing of the oldest subject of a full cache, if it has no
-- permissions, even where the metadata is its own; else the metadata that was added, with nulls, of
-- its subject, and what was known of any other.
pub add_subject_metadata_lem :
    (limit : ℕ) (d : Subjects) (m : SubjectMetadata) (s : Cache) (j : String)
    → get_subject_metadata j (add_subject_metadata limit d m s) ≡ (
        if is_forgotten limit d j s
        then none
        else if m.origin == j
        then some (with_nulls m)
        else get_subject_metadata j s)
unfolding add_subject_metadata
add_subject_metadata_lem limit d m s j =
    get-forget limit d j s.encountered (Assoc.set m.origin (with_nulls m) s.subject_metadata)
    ∙ ground (arith, get-set m.origin j (with_nulls m) s.subject_metadata)

pub data Call : Type 0 where
  clears : Call
  adds : Subjects → SubjectMetadata → Call
  trims : Subjects → Call

module _ (limit : ℕ) where
  unfoldable pub serve : Call → Cache → Cache
  serve clears s = clear_metadata s
  serve (adds d m) s = add_subject_metadata limit d m s
  serve (trims d) s = trim_metadata_state d s

  unfoldable pub run : List Call → Cache → Cache
  run [] s = s
  run (c ∷ cs) s = run cs (serve c s)

-- The subject had permissions when one of the calls was made.
abbrev pub permitted_at : Call → String → Bool
permitted_at clears o = false
permitted_at (adds d m) o = has_permissions o d
permitted_at (trims d) o = has_permissions o d

abbrev pub was_permitted : Subjects → List Call → String → Bool
was_permitted d [] o = has_permissions o d
was_permitted d (c ∷ cs) o = permitted_at c o || was_permitted d cs o

-- At most `limit` subjects are in the set; any other that is known is one of some others.
pub record IsBounded (limit : ℕ) (others : String → Bool) (s : Cache) : Type 0 where
  pub bounded : length s.encountered ≤ limit
  pub known :
      (o : String)
      → is_some (get_subject_metadata o s) ≡ true
      → (includes s.encountered o || others o) ≡ true

includes-append :
    (os : List String) (x o : String) → includes (os ++ x ∷ []) o ≡ (includes os o || (x == o))
includes-append [] x o = ground (arith)
includes-append (y ∷ ys) x o = ground (arith, includes-append ys x o)

length-append : (os : List String) (x : String) → length (os ++ x ∷ []) ≡ length os + 1
length-append [] x = refl
length-append (y ∷ ys) x = ground (arith, length-append ys x)

includes-add_to_set :
    (os : List String) (x o : String) → includes (add_to_set x os) o ≡ (includes os o || (x == o))
includes-add_to_set os x o = elim (Bool-cases (includes os x)) [
  | inl y ↦ ground (arith, y, eq_iff x o)
  | inr n ↦ ground (arith, n, includes-append os x o)
]

length-add_to_set : (os : List String) (x : String) → length (add_to_set x os) ≤ length os + 1
length-add_to_set os x = ground (arith, length-append os x)

-- After making room there is some.
make_room_lem :
    (limit : ℕ) (d : Subjects) (os : List String)
    → length os ≤ limit
    → 1 ≤ limit
    → length (make_room limit d os).0 + 1 ≤ limit
make_room_lem limit d [] h p = ground (arith, h, p)
make_room_lem limit d (o ∷ os) h p = ground (arith, h, p)

-- The one that is taken out is forgotten, or has permissions.
includes-make_room :
    (limit : ℕ) (d : Subjects) (os : List String) (j : String)
    → (leb limit (length os) && is_oldest d j os) ≡ false
    → includes os j ≡ true
    → (includes (make_room limit d os).0 j || has_permissions j d) ≡ true
includes-make_room limit d [] j n h = absurd (ground (arith, h))
includes-make_room limit d (o ∷ os) j n h = ground (arith, n, h, eq_iff o j)

get-trimmed :
    (d : Subjects) (j : String) (m : Assoc String SubjectMetadata)
    → is_some (Assoc.get j (get_trimmed_state d m)) ≡ true
    → (has_permissions j d ≡ true) × (is_some (Assoc.get j m) ≡ true)
unfolding Assoc.get
get-trimmed d j [] h = absurd (ground (arith, h))
get-trimmed d j ((o, x) ∷ m) h = elim (Bool-cases (has_permissions o d)) [
  | inl y ↦ ground (arith, h, y, eq_iff o j, get-trimmed d j m)
  | inr n ↦ ground (arith, h, n, eq_iff o j, get-trimmed d j m)
]

module _ (limit : ℕ) (others : String → Bool) (positive : 1 ≤ limit) where
  add_subject_metadata-IsBounded :
      (d : Subjects) (m : SubjectMetadata) (s : Cache)
      → ((o : String) → has_permissions o d ≡ true → others o ≡ true)
      → IsBounded limit others s
      → IsBounded limit others (add_subject_metadata limit d m s)
  unfolding add_subject_metadata
  add_subject_metadata-IsBounded d m s p v = record {
    bounded =
        let room = (make_room limit d s.encountered).0 in
        ground (
          arith,
          length-add_to_set room m.origin,
          make_room_lem limit d s.encountered v.bounded positive,
        );
    known = λ o k. elim (Bool-cases (is_forgotten limit d o s)) [
      | inl y ↦ absurd (ground (arith, k, y, add_subject_metadata_lem limit d m s o))
      | inr n ↦
          let room = (make_room limit d s.encountered).0 in
          let after = includes-add_to_set room m.origin o in
          elim (Bool-cases (m.origin == o)) [
            | inl same ↦ ground (arith, after, same)
            | inr other ↦
                let before : is_some (get_subject_metadata o s) ≡ true =
                  ground (arith, k, n, other, add_subject_metadata_lem limit d m s o) in
                elim (Bool-cases (includes s.encountered o)) [
                  | inl i ↦
                      ground (arith, after, p o, includes-make_room limit d s.encountered o n i)
                  | inr j ↦ ground (arith, j, v.known o before)
                ]
          ]
    ];
  }

  serve-IsBounded :
      (c : Call) (s : Cache)
      → ((o : String) → permitted_at c o ≡ true → others o ≡ true)
      → IsBounded limit others s
      → IsBounded limit others (serve limit c s)
  unfolding serve clear_metadata trim_metadata_state Assoc.get
  serve-IsBounded clears s p v = record {
    bounded = ground (arith);
    known = λ o k. absurd (ground (arith, k));
  }
  serve-IsBounded (adds d m) s p v = add_subject_metadata-IsBounded d m s p v
  serve-IsBounded (trims d) s p v = record {
    bounded = v.bounded;
    known = λ o k. ground (arith, p o (get-trimmed d o s.subject_metadata k).0);
  }

  run_keeps :
      (d : Subjects) (cs : List Call) (s : Cache)
      → ((o : String) → was_permitted d cs o ≡ true → others o ≡ true)
      → IsBounded limit others s
      → IsBounded limit others (run limit cs s)
  unfolding run
  run_keeps d [] s p v = v
  run_keeps d (c ∷ cs) s p v =
      run_keeps d cs (serve limit c s) (λ o h. p o (ground (arith, h)))
        (serve-IsBounded c s (λ o h. p o (ground (arith, h))) v)

permitted_first :
    (d : Subjects) (cs : List Call) (o : String)
    → has_permissions o d ≡ true
    → was_permitted d cs o ≡ true
permitted_first d [] o h = h
permitted_first d (c ∷ cs) o h = ground (arith, permitted_first d cs o h)

-- From a new controller and after any calls, whatever permissions there are at each of them, at most
-- the limit of subjects are in the set, and any other subject that is known had permissions when one
-- of the calls was made, or at the start.
pub run-IsBounded :
    (limit : ℕ) (d : Subjects) (persisted : Assoc String SubjectMetadata) (s : Cache)
    (cs : List Call)
    → new_cache limit d persisted ≡ some s
    → IsBounded limit (was_permitted d cs) (run limit cs s)
unfolding new_cache
run-IsBounded limit d persisted s cs h = elim (Bool-cases (ltb limit 1)) [
  | inl y ↦ absurd (ground (arith, h, y))
  | inr n ↦
      let made : s
          ≡ (record { subject_metadata = get_trimmed_state d persisted; encountered = [] }) =
        ground (arith, h, n) in
      run_keeps limit (was_permitted d cs) (ground (arith, n)) d cs s (λ o k. k)
        (record {
          bounded = ground (arith, ap (λ (c : Cache). c.encountered) made);
          known = λ o k.
              let trimmed =
                subst (λ (c : Cache). is_some (get_subject_metadata o c) ≡ true) made k in
              ground (arith, permitted_first d cs o (get-trimmed d o persisted trimmed).0);
        })
]
