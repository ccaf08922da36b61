-- ===== src/Permission/Revoking.antt =====
-- What a revocation of PermissionController.ts leaves of the table of subjects.
use text.Mathlib.TextEquality.{eq_iff}
use fork_metamask_core.Common.{
  ◌≡◌, refl, ap, ◌∙◌, String, Bool, true, false, ◌&&◌, none, some, [], ◌∷◌, if◌then◌else◌, arith,
  inl, inr, Bool-cases, Option-cases, string_eq, ◌==◌, length, ltb,
}
use fork_metamask_core.Common.Assoc.{Assoc, Distinct, get-set, get-delete, length-delete}
use fork_metamask_core.Common.Assoc
use fork_metamask_core.Common.Monad.{Result, ok, err}
use fork_metamask_core.Permission.State.{Permission, Subject, Subjects, State, Error, Config}
use fork_metamask_core.Permission.Subjects.{
  get_permission, has_permission, delete_permission, revoke_target, revoke_permissions,
  revoke_permission, without_permission,
}
use fork_metamask_core.Permission.Sound.{IsConsistent}
use fork_metamask_core.Permission.Keeps.{IsSubject-there}

abbrev pub is_ok : Result Error (Unit {0}) → Bool
is_ok (ok a) = true
is_ok (err e) = false

-- The subject has a permission besides one.
abbrev pub has_others : String → String → Subjects → Bool
has_others o t d = elim (Assoc.get o d) [
  | none ↦ false
  | some x ↦ ltb 0 (length (Assoc.delete t x.permissions))
]

get_of_empty : (u : String) (m : Assoc String Permission) → length m ≡ 0 → Assoc.get u m ≡ none
unfolding Assoc.get
get_of_empty u [] h = refl
get_of_empty u ((k, p) ∷ m) h = absurd (omega arith)

-- The only permission of a subject is the one under a key that it has.
get_of_single :
    (t u : String) (p : Permission) (m : Assoc String Permission)
    → Distinct m
    → Assoc.get t m ≡ some p
    → ltb 1 (length m) ≡ false
    → (t == u) ≡ false
    → Assoc.get u m ≡ none
get_of_single t u p m d f l n =
    let rest = length-delete t p m d f in
    let gone = get_of_empty u (Assoc.delete t m) (ground (arith, rest, l)) in
    ground (arith, n, gone, get-delete t u m)

pub get_permission-without_permission :
    (o t j u : String) (p : Permission) (x : Subject) (d : Subjects)
    → Assoc.get o d ≡ some x
    → Assoc.get t x.permissions ≡ some p
    → Distinct x.permissions
    → get_permission j u (without_permission o t x d)
      ≡ (if o == j && t == u then none else get_permission j u d)
get_permission-without_permission o t j u p x d e f distinct =
    let y = record x { permissions = Assoc.delete t x.permissions } in
    elim (Bool-cases (ltb 1 (length x.permissions))) [
      | inl more ↦
          ground (arith, e, more, get-set o j y d, get-delete t u x.permissions, eq_iff o j)
      | inr single ↦ elim (Bool-cases (t == u)) [
        | inl same ↦ ground (arith, e, single, same, get-delete o j d, eq_iff o j)
        | inr other ↦
            let none_left = get_of_single t u p x.permissions distinct f single other in
            ground (arith, e, single, other, none_left, get-delete o j d, eq_iff o j)
      ]
    ]

has-without_permission :
    (o t : String) (p : Permission) (x : Subject) (d : Subjects)
    → Assoc.get o d ≡ some x
    → Assoc.get t x.permissions ≡ some p
    → Distinct x.permissions
    → Assoc.has o (without_permission o t x d) ≡ has_others o t d
has-without_permission o t p x d e f distinct =
    let y = record x { permissions = Assoc.delete t x.permissions } in
    let l = length-delete t p x.permissions distinct f in
    ground (arith, e, l, get-set o o y d, get-delete o o d, eq_iff o o)

-- Revoking one permission of a consistent table: where it is there, it is gone afterwards, its subject
-- too if it was the last one, and every other permission stays; where it is not there, revokePermission
-- throws.
pub revoke_permission_lem :
    (config : Config) (o t : String) (s : State) (j u : String)
    → IsConsistent config s.subjects
    → let known = has_permission o t s.subjects in
      let r = revoke_permission o t s in
      (is_ok r.0 ≡ known)
      × (get_permission j u r.1.subjects
          ≡ (if known && (o == j && t == u) then none else get_permission j u s.subjects))
      × (Assoc.has o r.1.subjects
          ≡ (if known then has_others o t s.subjects else Assoc.has o s.subjects))
unfolding revoke_permissions revoke_target delete_permission
revoke_permission_lem config o t s j u v = elim (Option-cases (Assoc.get o s.subjects)) [
  | inl n ↦ (ground (arith, n), ground (arith, n), ground (arith, n))
  | inr (x, e) ↦ elim (Option-cases (Assoc.get t x.permissions)) [
    | inl n ↦ (ground (arith, e, n), ground (arith, e, n), ground (arith, e, n))
    | inr (p, f) ↦
        let h = IsSubject-there config o s.subjects v x e in
        let d = h.distinct in
        let known : has_permission o t s.subjects ≡ true = ground (arith, e, f) in
        let written : (revoke_permission o t s).1.subjects ≡ without_permission o t x s.subjects =
          ground (arith, e, f) in
        (
          ground (arith, e, f),
          ap (get_permission j u) written
              ∙ get_permission-without_permission o t j u p x s.subjects e f d
              ∙ ground (arith, known),
          ap (Assoc.has o) written
              ∙ has-without_permission o t p x s.subjects e f d
              ∙ ground (arith, known),
        )
  ]
]
