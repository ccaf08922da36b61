-- ===== src/Permission/Changes.antt =====
-- Adding, updating and removing a caveat by PermissionController.ts keep the table consistent.
use fork_metamask_core.Common.{
  ◌≡◌, refl, subst, String, Option, none, some, List, is_some, any, string_eq, arith, inl, inr,
  Bool-cases, Option-cases,
}
use fork_metamask_core.Common.Assoc.{Assoc, Distinct, All-get}
use fork_metamask_core.Common.Assoc
use fork_metamask_core.Common.Monad.{Result, ok, err, and_then, lift, modify}
use fork_metamask_core.Common.Js.{Value}
use fork_metamask_core.Permission.State.{
  Caveat, raw_caveat, Permission, Subject, Subjects, State, Error, Config,
}
use fork_metamask_core.Permission.Validation.{validate_caveat, validate_modified_permission}
use fork_metamask_core.Permission.Subjects.{get_permission}
use fork_metamask_core.Permission.Caveats.{
  has_caveat_type, find_caveat, put_in, with_permission, get_caveat, has_caveat, set_caveat_draft,
  set_caveat, add_caveat, update_caveat, rest_caveats, delete_caveat, removed, remove_caveat_draft,
  remove_caveat,
}
use fork_metamask_core.Permission.Sound.{
  IsSound, IsConsistent, validate_modified_permission-IsSound,
}
use fork_metamask_core.Permission.Keeps.{
  Keeps, keeps_update, IsSubject-there, with_permission-IsConsistent,
}

module _ (config : Config) where
  permission_there :
      (k t : String) (x : Subject) (p : Permission) (d : Subjects)
      → IsConsistent config d
      → Assoc.get k d ≡ some x
      → Assoc.get t x.permissions ≡ some p
      → IsSound config (t, p)
  permission_there k t x p d v e f =
      All-get (IsSound config) t p x.permissions (IsSubject-there config k d v x e).sound f

  set_caveat_draft-IsConsistent :
      (origin target : String) (c : Caveat)
      → Keeps (IsConsistent config) (set_caveat_draft config origin target c)
  unfolding set_caveat_draft
  set_caveat_draft-IsConsistent origin target c d v = elim (Option-cases (Assoc.get origin d)) [
    | inl n ↦ rw (n) v
    | inr (x, e) ↦ elim (Option-cases (Assoc.get target x.permissions)) [
      | inl n ↦ rw (e, n) v
      | inr (p, f) ↦ elim (Option-cases (validate_caveat config (raw_caveat c) origin target)) [
        | inr (z, g) ↦ rw (e, f, g) v
        | inl g ↦
            let q = record p { caveats = some (put_in c p.caveats) } in
            elim (Option-cases (validate_modified_permission config q origin)) [
              | inr (z, h) ↦ rw (e, f, g, h) v
              | inl h ↦
                  rw (e, f, g, h)
                    (with_permission-IsConsistent config origin target q d v (
                      validate_modified_permission-IsSound config target origin q
                        (permission_there origin target x p d v e f).0 h))
            ]
      ]
    ]
  ]

  set_caveat-IsConsistent :
      (origin target type : String) (value : Value) (s : State)
      → IsConsistent config s.subjects
      → IsConsistent config (set_caveat config origin target type value s).1.subjects
  unfolding set_caveat
  set_caveat-IsConsistent origin target type value s v =
      let c : Caveat = record { type = type; value = value } in
      keeps_update (IsConsistent config) (set_caveat_draft config origin target c) s
        (set_caveat_draft-IsConsistent origin target c) v

  -- Neither has_caveat nor a throw writes.
  pub add_caveat-IsConsistent :
      (origin target type : String) (value : Value) (s : State)
      → IsConsistent config s.subjects
      → IsConsistent config (add_caveat config origin target type value s).1.subjects
  unfolding add_caveat has_caveat get_caveat
  add_caveat-IsConsistent origin target type value s v =
      elim (Option-cases (get_permission origin target s.subjects)) [
        | inl n ↦ rw (n, add_caveat) v
        | inr (p, e) ↦ elim (Bool-cases (is_some (find_caveat type p.caveats))) [
          | inl y ↦ rw (e, y, add_caveat) v
          | inr n ↦ rw (e, n, add_caveat) (set_caveat-IsConsistent origin target type value s v)
        ]
      ]

  pub update_caveat-IsConsistent :
      (origin target type : String) (value : Value) (s : State)
      → IsConsistent config s.subjects
      → IsConsistent config (update_caveat config origin target type value s).1.subjects
  unfolding update_caveat has_caveat get_caveat
  update_caveat-IsConsistent origin target type value s v =
      elim (Option-cases (get_permission origin target s.subjects)) [
        | inl n ↦ rw (n, update_caveat) v
        | inr (p, e) ↦ elim (Bool-cases (is_some (find_caveat type p.caveats))) [
          | inl y ↦ rw (e, y, update_caveat) (set_caveat-IsConsistent origin target type value s v)
          | inr n ↦ rw (e, n, update_caveat) v
        ]
      ]

  pub delete_caveat-IsSound :
      (target origin type : String) (p q : Permission) (cs : Option (List Caveat))
      → p.parent_capability ≡ target
      → delete_caveat config p type origin cs ≡ ok q
      → IsSound config (target, q)
  unfolding delete_caveat
  delete_caveat-IsSound target origin type p q none e h = absurd (ground (arith, h))
  delete_caveat-IsSound target origin type p q (some cs) e h =
      let r = record p { caveats = rest_caveats config type cs } in
      elim (Bool-cases (any (has_caveat_type type) cs)) [
        | inr n ↦ absurd (ground (arith, h, n))
        | inl y ↦ elim (Option-cases (validate_modified_permission config r origin)) [
          | inr (z, n) ↦ absurd (ground (arith, h, y, n))
          | inl n ↦
              let same : r ≡ q = ground (arith, h, y, n) in
              subst (λ u. IsSound config (target, u)) same
                (validate_modified_permission-IsSound config target origin r e n)
        ]
      ]

  pub permission_found :
      (k t : String) (p : Permission) (d : Subjects)
      → IsConsistent config d
      → get_permission k t d ≡ some p
      → IsSound config (t, p)
  permission_found k t p d v h = elim (Option-cases (Assoc.get k d)) [
    | inl n ↦ absurd (ground (arith, h, n))
    | inr (x, e) ↦ permission_there k t x p d v e (ground (arith, h, e))
  ]

  removed-IsSound :
      (origin target type : String) (p q : Permission) (cs : Option (List Caveat))
      → p.parent_capability ≡ target
      → removed config origin target type p cs ≡ ok q
      → IsSound config (target, q)
  removed-IsSound origin target type p q none e h = absurd (ground (arith, h))
  removed-IsSound origin target type p q (some cs) e h =
      delete_caveat-IsSound target origin type p q (some cs) e h

  remove_caveat_draft-IsConsistent :
      (origin target type : String)
      → Keeps (IsConsistent config) (remove_caveat_draft config origin target type)
  unfolding remove_caveat_draft
  remove_caveat_draft-IsConsistent origin target type d v =
      elim (Option-cases (get_permission origin target d)) [
        | inl n ↦ rw (n, remove_caveat_draft) v
        | inr (p, e) ↦
            rw (e, remove_caveat_draft)
              (stays p (permission_found origin target p d v e)
                (removed config origin target type p p.caveats) refl)
      ]
    where
      stays :
          (p : Permission)
          → IsSound config (target, p)
          → (r : Result Error Permission) → removed config origin target type p p.caveats ≡ r
          → IsConsistent config
              (and_then (lift r d) (λ q. modify (with_permission origin target q))).1
      stays p h (err z) e = v
      stays p h (ok q) e =
          with_permission-IsConsistent config origin target q d v
            (removed-IsSound origin target type p q p.caveats h.0 e)

  pub remove_caveat-IsConsistent :
      (origin target type : String) (s : State)
      → IsConsistent config s.subjects
      → IsConsistent config (remove_caveat config origin target type s).1.subjects
  unfolding remove_caveat
  remove_caveat-IsConsistent origin target type s v =
      keeps_update (IsConsistent config) (remove_caveat_draft config origin target type) s
        (remove_caveat_draft-IsConsistent origin target type) v
