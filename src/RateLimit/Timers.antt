-- ===== src/RateLimit/Timers.antt =====
-- The counts and the timers of RateLimitController.ts.
use text.Mathlib.TextEquality.{eq_iff}
use fork_metamask_core.Common.{
  ℕ, ◌+◌, ◌≡◌, String, true, ◌&&◌, Option, none, some, List, [], ◌∷◌, arith, if◌then◌else◌, get_or,
  any, count, bit, eqb, ◌==◌, string_eq,
}
use fork_metamask_core.Common.Assoc.{Assoc, get-set}
use fork_metamask_core.Common.Assoc
use fork_metamask_core.Common.Js.{Value}
use fork_metamask_core.RateLimit.Controller.{
  RateLimitedApi, Timer, State, reaches, is_rate_limited, with_count, add_timer, record_request,
  call, is_for, without_first,
}

-- How many calls are counted for an API and an origin, and how many timers run for them.
abbrev pub counted : String → String → State → ℕ
counted api origin s = get_or (Assoc.get origin (get_or (Assoc.get api s.requests) [])) 0

abbrev pub timers_for : String → String → State → ℕ
timers_for api origin s = count (is_for api origin) s.timers

-- The limit of an API; 1 for one that is not there.
abbrev pub limit_of : String → State → ℕ
limit_of api s = elim (Assoc.get api s.implementations) [
  | none ↦ 1
  | some i ↦ get_or i.rate_limit_count s.rate_limit_count
]

-- Taking out the first timer of a key.
pub count-without_first :
    (a o api origin : String) (ts : List Timer)
    → any (is_for api origin) ts ≡ true
    → count (is_for a o) (without_first (is_for api origin) ts) + bit (api == a && origin == o)
      ≡ count (is_for a o) ts
count-without_first a o api origin [] h = absurd (ground (arith, h))
count-without_first a o api origin (t ∷ ts) h =
    let rest = count-without_first a o api origin ts in
    ground (
      arith,
      rest,
      h,
      eq_iff t.api api,
      eq_iff t.origin origin,
      eq_iff t.api a,
      eq_iff t.origin o,
      eq_iff api a,
      eq_iff origin o,
    )

module _ (api origin : String) (n : ℕ) (s : State) (a o : String) where
  pub counted-with_count :
      counted a o (with_count api origin n s)
      ≡ (if api == a && origin == o then n else counted a o s)
  counted-with_count =
      let m = get_or (Assoc.get api s.requests) [] in
      ground (
        arith,
        get-set api a (Assoc.set origin n m) s.requests,
        get-set origin o n m,
        eq_iff api a,
        eq_iff origin o,
      )

-- The state once a call is counted.
abbrev pub recorded : String → String → RateLimitedApi → State → State
recorded api origin i s =
    let t = with_count api origin (counted api origin s + 1) s in
    if eqb (counted api origin s) 0
    then add_timer
        (record {
          api = api;
          origin = origin;
          timeout = get_or i.rate_limit_timeout s.rate_limit_timeout;
        })
        t
    else t

-- The state after a call, by what the tables hold for the API.
abbrev pub after_call :
    String → String → Option RateLimitedApi → Option (Assoc String ℕ) → State → State
after_call api origin none m s = s
after_call api origin (some i) none s = s
after_call api origin (some i) (some m) s =
    if reaches (Assoc.get origin m) (get_or i.rate_limit_count s.rate_limit_count)
    then s
    else recorded api origin i s

pub call-state :
    (origin api : String) (args : List Value) (s : State)
    → (call origin api args s).1
      ≡ after_call api origin (Assoc.get api s.implementations) (Assoc.get api s.requests) s
unfolding call is_rate_limited record_request
call-state origin api args s = ground (arith)
