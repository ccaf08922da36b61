-- ===== src/Permission/Mutating.antt =====
-- updatePermissionsByCaveat of PermissionController.ts keeps the table consistent.
use text.Mathlib.TextEquality.{eq_iff}
use fork_metamask_core.Common.{
  ◌≡◌, refl, sym, subst, String, Option, none, some, List, [], ◌∷◌, is_some, find, string_eq, arith,
  inl, inr, Bool-cases, Option-cases,
}
use fork_metamask_core.Common.Monad.{Result, ok, err, for_each, and_then, lift}
use fork_metamask_core.Common.Js.{Value}
use fork_metamask_core.Permission.State.{
  Caveat, raw_caveat, Permission, Subject, Subjects, State, Error, Config,
}
use fork_metamask_core.Permission.Validation.{validate_caveat}
use fork_metamask_core.Permission.Subjects.{get_permission}
use fork_metamask_core.Permission.Caveats.{
  has_caveat_type, find_caveat, put_in, Mutation, noop, delete_it, revoke_it, unrecognized,
  update_value, Mutator, delete_caveat, still_there, with_value, mutate, visit_caveat,
  visit_permission, visit_subject, update_permissions_by_caveat,
}
use fork_metamask_core.Permission.Sound.{
  AreAllowed, AreCaveats, IsSound, IsSubject, IsConsistent, types-put_caveat, length-put_caveat,
}
use fork_metamask_core.Permission.Keeps.{
  Keeps, Keeps-each, keeps_update, delete_permission-IsConsistent, with_permission-IsConsistent,
}
use fork_metamask_core.Permission.Changes.{delete_caveat-IsSound}

find-type :
    (type : String) (c : Caveat) (cs : List Caveat)
    → find (has_caveat_type type) cs ≡ some c
    → c.type ≡ type
find-type type c [] h = absurd (ground (arith, h))
find-type type c (x ∷ xs) h = ground (arith, h, find-type type c xs, eq_iff x.type type)

module _ (config : Config) where
  with_value-IsSound :
      (target : String) (value : Value) (c : Caveat) (p : Permission)
      → IsSound config (target, p)
      → find_caveat c.type p.caveats ≡ some c
      → IsSound config (target, with_value config value c p)
  with_value-IsSound target value c p (e, (spec, g, a)) h = (e, (spec, g, allowed p.caveats a h))
    where
      allowed :
          (cs : Option (List Caveat))
          → AreCaveats spec cs
          → find_caveat c.type cs ≡ some c
          → AreCaveats spec (some (put_in (record c { value = value }) cs))
      allowed none b f = absurd (ground (arith, f))
      allowed (some cs) b f = (
        length-put_caveat (record c { value = value }) cs,
        subst (AreAllowed spec.allowed_caveats) (sym (types-put_caveat value c cs f)) b.1,
      )

  still_there-IsConsistent :
      (key target : String) (p : Permission) (d : Subjects)
      → IsConsistent config d
      → IsSound config (target, p)
      → IsConsistent config (still_there config key target p d)
  still_there-IsConsistent key target p d v h =
      elim (Bool-cases (is_some (get_permission key target d))) [
        | inl y ↦ rw (y, still_there) (with_permission-IsConsistent config key target p d v h)
        | inr n ↦ rw (n, still_there) v
      ]

  module _ (key origin target : String) (p : Permission) (h : IsSound config (target, p))
      (c : Caveat) where
    mutate-IsConsistent :
        (m : Value × Mutation)
        → find_caveat c.type p.caveats ≡ some c
        → Keeps (IsConsistent config) (mutate config key origin target p c m)
    unfolding mutate
    mutate-IsConsistent (left, noop) f d v =
        still_there-IsConsistent key target (with_value config left c p) d v
          (with_value-IsSound target left c p h f)
    mutate-IsConsistent (left, unrecognized) f d v = v
    mutate-IsConsistent (left, revoke_it) f d v =
        delete_permission-IsConsistent config origin p.parent_capability _ (
          still_there-IsConsistent key target (with_value config left c p) d v
            (with_value-IsSound target left c p h f))
    mutate-IsConsistent (left, update_value w) f d v =
        elim (Option-cases (
          validate_caveat config (raw_caveat (record c { value = w })) origin
            p.parent_capability)) [
              | inr (z, n) ↦ rw (n) v
              | inl n ↦ rw (n) (
                  still_there-IsConsistent key target (with_value config w c p) d v
                    (with_value-IsSound target w c p h f))
            ]
    mutate-IsConsistent (left, delete_it) f d v =
        let q = with_value config left c p in
        deleted (delete_caveat config q c.type origin q.caveats) refl
      where
        deleted :
            (r : Result Error Permission)
            → delete_caveat config
                (with_value config left c p)
                c.type
                origin
                (with_value config left c p).caveats
              ≡ r
            → IsConsistent config (mutate config key origin target p c (left, delete_it) d).1
        deleted (ok u) e =
            rw (e, mutate)
              (still_there-IsConsistent key target u d v (
                delete_caveat-IsSound config target origin c.type (with_value config left c p) u _
                  h.0 e))
        deleted (err z) e = rw (e, mutate) v

    visit_caveat-IsConsistent :
        (mutator : Mutator)
        → find_caveat c.type p.caveats ≡ some c
        → Keeps (IsConsistent config) (visit_caveat config mutator key origin target p (some c))
    visit_caveat-IsConsistent mutator f d v = visited (mutator c.value)
      where
        visited :
            (r : Result Error (Value × Mutation))
            → IsConsistent config (and_then (lift r d) (mutate config key origin target p c)).1
        visited (ok m) = mutate-IsConsistent m f d v
        visited (err z) = v

  find_itself :
      (type : String) (c : Caveat) (cs : Option (List Caveat))
      → find_caveat type cs ≡ some c
      → find_caveat c.type cs ≡ some c
  find_itself type c none h = absurd (ground (arith, h))
  find_itself type c (some cs) h =
      subst (λ t. find (has_caveat_type t) cs ≡ some c) (sym (find-type type c cs h)) h

  visit_permission-IsConsistent :
      (type : String) (mutator : Mutator) (key origin : String) (e : String × Permission)
      → IsSound config e
      → Keeps (IsConsistent config) (visit_permission config type mutator key origin e)
  visit_permission-IsConsistent type mutator key origin (target, p) h d v =
      elim (Option-cases (find_caveat type p.caveats)) [
        | inl n ↦ rw (n, visit_permission) v
        | inr (c, f) ↦
            rw (f, visit_permission)
              (visit_caveat-IsConsistent key origin target p h c mutator
                (find_itself type c p.caveats f) d v)
      ]

  visit_subject-IsConsistent :
      (type : String) (mutator : Mutator) (e : String × Subject)
      → IsSubject config e
      → Keeps (IsConsistent config) (visit_subject config type mutator e)
  visit_subject-IsConsistent type mutator (key, x) h =
      Keeps-each (IsConsistent config) (IsSound config)
        (visit_permission config type mutator key x.origin)
        (visit_permission-IsConsistent type mutator key x.origin) x.permissions h.sound

  -- The snapshot that the loops run over is sound, and each write is of a sound permission.
  pub update_permissions_by_caveat-IsConsistent :
      (type : String) (mutator : Mutator) (s : State)
      → IsConsistent config s.subjects
      → IsConsistent config (update_permissions_by_caveat config type mutator s).1.subjects
  unfolding update_permissions_by_caveat
  update_permissions_by_caveat-IsConsistent type mutator s v =
      keeps_update (IsConsistent config) (for_each (visit_subject config type mutator) s.subjects) s
        (Keeps-each (IsConsistent config) (IsSubject config) (visit_subject config type mutator)
          (visit_subject-IsConsistent type mutator) s.subjects v.subjects)
        v
