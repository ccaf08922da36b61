-- ===== src/Permission/Refines.antt =====
-- PermissionController.ts as a store of rights: what each call means for who has which permission.
use fork_metamask_core.Common.{
  ℕ, ◌≡◌, String, Bool, true, false, List, [], ◌∷◌, if◌then◌else◌, string_eq, ◌==◌, All,
}
use fork_metamask_core.Common.Assoc.{Assoc, keys, get-delete}
use fork_metamask_core.Common.Assoc
use fork_metamask_core.Common.Monad.{Result, ok, err}
use fork_metamask_core.Common.Js.{string_of}
use fork_metamask_core.Permission.State.{State, Error, Config}
use fork_metamask_core.Permission.Runs.{
  Call, clears, revokes_all, revokes_for_all, revokes, adds, updates, removes, mutates, grants,
  requests, serve,
}
use fork_metamask_core.Permission.Rights.{Rights, except, are_named}
use fork_metamask_core.Permission.Granted.{with_granted}

-- What a call means for the rights. Mutators and requests, which the client's functions and the user
-- decide, have no meaning of their own.
abbrev pub meaning : Call → Rights → Rights
meaning clears r = λ j u. false
meaning (revokes_all o) r = except (λ j u. o == j) r
meaning (revokes_for_all t) r = except (λ j u. t == u) r
meaning (revokes revoked) r = except (are_named revoked) r
meaning (adds o t type value) r = r
meaning (updates o t type value) r = r
meaning (removes o t type) r = r
meaning (mutates type mutator) r = r
meaning (grants o data' preserve x xs) r = with_granted (string_of o) preserve (keys (x ∷ xs)) r
meaning (requests id o preserve permissions request answer) r = r

abbrev pub is_direct : Call → Bool
is_direct (mutates type mutator) = false
is_direct (requests id o preserve permissions request answer) = false
is_direct _ = true

abbrev pub is_done : Result Error (Unit {0}) → Bool
is_done (ok u) = true
is_done (err e) = false

module _ (config : Config) (ids : String → String) (now : ℕ) where
  -- The calls of a sequence that do not throw.
  abbrev pub done : List Call → State → List Call
  done [] s = []
  done (c ∷ cs) s =
      let rest = done cs (serve config ids now c s).1 in
      if is_done (serve config ids now c s).0 then c ∷ rest else rest

-- The specification: rights that are changed by one call after another.
abbrev pub replay : List Call → Rights → Rights
replay [] r = r
replay (c ∷ cs) r = replay cs (meaning c r)

abbrev pub AreDirect : List Call → Type 0
AreDirect cs = All (λ c. is_direct c ≡ true) cs
