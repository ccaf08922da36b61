-- ===== src/RateLimit/Tests.antt =====
-- The theorems on RateLimitController.ts at concrete inputs.
use fork_metamask_core.Common.{none, some, List, [], ◌∷◌, string_eq}
use fork_metamask_core.Common.Js.{null}
use fork_metamask_core.RateLimit.Controller.{RateLimitedApi, init, Event, calls, fires, run}
use fork_metamask_core.RateLimit.Quota.{IsLimited, run-IsLimited}

abbrev api : RateLimitedApi
api = record { method = some (λ args. null); rate_limit_timeout = none; rate_limit_count = some 2 }

abbrev events : List Event
events =
    calls "b" "notify" []
    ∷ calls "b" "notify" []
    ∷ calls "b" "notify" []
    ∷ fires "b" "notify"
    ∷ calls "b" "notify" []
    ∷ []

run-IsLimited_example : IsLimited "notify" "b" (run (init (("notify", api) ∷ []) none none) events)
run-IsLimited_example = run-IsLimited (("notify", api) ∷ []) none none events "notify" "b"
