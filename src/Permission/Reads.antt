-- ===== src/Permission/Reads.antt =====
-- What the reading methods of PermissionController.ts see after its writing methods.
use text.Mathlib.TextEquality.{eq_iff}
use fork_metamask_core.Common.{
  ◌≡◌, ap, ◌∙◌, String, true, ◌&&◌, Option, none, some, List, [], ◌∷◌, if◌then◌else◌, arith, inl,
  inr, Option-cases, string_eq, ◌==◌, is_some, find,
}
use fork_metamask_core.Common.Assoc.{Assoc, Distinct, get-set, get-delete, length-delete}
use fork_metamask_core.Common.Assoc
use fork_metamask_core.Common.Monad.{ok}
use fork_metamask_core.Common.Js.{Value}
use fork_metamask_core.Permission.State.{
  Caveat, raw_caveat, Permission, Subject, Subjects, State, Config,
}
use fork_metamask_core.Permission.Validation.{validate_caveat, validate_modified_permission}
use fork_metamask_core.Permission.Subjects.{get_permission}
use fork_metamask_core.Permission.Caveats.{
  has_caveat_type, find_caveat, put_caveat, put_in, with_permission, get_caveat, has_caveat,
  set_caveat_draft, set_caveat, update_caveat,
}

-- The caveat of a type of a permission.
abbrev pub caveat_at : String → String → String → Subjects → Option Caveat
caveat_at origin target type d = elim (get_permission origin target d) [
  | none ↦ none
  | some p ↦ find_caveat type p.caveats
]

find-put_caveat :
    (c : Caveat) (w : String) (cs : List Caveat)
    → find (has_caveat_type w) (put_caveat c cs)
      ≡ (if c.type == w then some c else find (has_caveat_type w) cs)
find-put_caveat c w [] = ground (arith)
find-put_caveat c w (x ∷ xs) =
    ground (arith, find-put_caveat c w xs, eq_iff x.type c.type, eq_iff x.type w, eq_iff c.type w)

find-put_in :
    (c : Caveat) (w : String) (cs : Option (List Caveat))
    → find_caveat w (some (put_in c cs)) ≡ (if c.type == w then some c else find_caveat w cs)
find-put_in c w none = ground (arith)
find-put_in c w (some cs) = find-put_caveat c w cs

pub get_permission-with_permission :
    (o t j u : String) (p : Permission) (x : Subject) (d : Subjects)
    → Assoc.get o d ≡ some x
    → get_permission j u (with_permission o t p d)
      ≡ (if o == j && t == u then some p else get_permission j u d)
get_permission-with_permission o t j u p x d e = ground (
  arith,
  e,
  get-set o j (record x { permissions = Assoc.set t p x.permissions }) d,
  get-set t u p x.permissions,
  eq_iff o j,
)

caveat_at-with_permission :
    (o t j u w : String) (c : Caveat) (p : Permission) (x : Subject) (d : Subjects)
    → Assoc.get o d ≡ some x
    → Assoc.get t x.permissions ≡ some p
    → caveat_at j u w (with_permission o t (record p { caveats = some (put_in c p.caveats) }) d)
      ≡ (if o == j && (t == u && c.type == w) then some c else caveat_at j u w d)
caveat_at-with_permission o t j u w c p x d e f =
    let q = record p { caveats = some (put_in c p.caveats) } in
    ground (
      arith,
      e,
      f,
      get_permission-with_permission o t j u q x d e,
      find-put_in c w p.caveats,
      eq_iff o j,
      eq_iff t u,
    )

-- What is written is read: an update of a caveat that does not throw is an update of a caveat that was
-- there; afterwards its type has the new value, and every other caveat of every permission of every
-- origin is as before.
pub caveat_at-update_caveat :
    (config : Config) (o t type : String) (value : Value) (s : State) (j u w : String)
    → (update_caveat config o t type value s).0 ≡ ok tt
    → (is_some (caveat_at o t type s.subjects) ≡ true)
      × (caveat_at j u w (update_caveat config o t type value s).1.subjects ≡ (
          if o == j && (t == u && type == w)
          then some (record { type = type; value = value })
          else caveat_at j u w s.subjects))
unfolding update_caveat has_caveat get_caveat set_caveat set_caveat_draft
caveat_at-update_caveat config o t type value s j u w h =
    elim (Option-cases (Assoc.get o s.subjects)) [
      | inl n ↦ absurd (ground (arith, h, n))
      | inr (x, e) ↦ elim (Option-cases (Assoc.get t x.permissions)) [
        | inl n ↦ absurd (ground (arith, h, e, n))
        | inr (p, f) ↦
            let c : Caveat = record { type = type; value = value } in
            let q = record p { caveats = some (put_in c p.caveats) } in
            elim (Option-cases (find_caveat type p.caveats)) [
              | inl n ↦ absurd (ground (arith, h, e, f, n))
              | inr (b, g) ↦ elim (Option-cases (validate_caveat config (raw_caveat c) o t)) [
                | inr (z, n) ↦ absurd (ground (arith, h, e, f, g, n))
                | inl k ↦ elim (Option-cases (validate_modified_permission config q o)) [
                  | inr (z, n) ↦ absurd (ground (arith, h, e, f, g, k, n))
                  | inl l ↦
                      let written : (update_caveat config o t type value s).1.subjects
                          ≡ with_permission o t q s.subjects =
                        ground (arith, e, f, g, k, l) in
                      (
                        ground (arith, e, f, g),
                        ap (caveat_at j u w) written
                            ∙ caveat_at-with_permission o t j u w c p x s.subjects e f,
                      )
                ]
              ]
            ]
      ]
    ]
