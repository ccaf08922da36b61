-- ===== src/Rpc/Remap.antt =====
-- `createIdRemapMiddleware` and `getUniqueId` of merged-packages/json-rpc-engine/src.
use fork_metamask_core.Common.{
  ℕ, ◌+◌, ◌%◌, ◌<◌, ◌≡◌, ◌≢◌, ap, ◌∙◌, Option, none, some, List, [], ◌∷◌, arith, zero, suc,
}
use fork_metamask_core.Common.Js.{Value, number}
use fork_metamask_core.Rpc.Engine.{
  Exchange, Middleware, Thrown, continued, fn, no_error, run_middleware, process_request,
  run_return_handlers, rethrow,
}
use fork_metamask_core.Rpc.Nested.{nested, process_request-nested, unwind}

abbrev pub max_id : ℕ
max_id = 4294967295

-- `getUniqueId`: the counter after the call, which is the id too.
unfoldable pub get_unique_id : ℕ → ℕ
get_unique_id id_counter = (id_counter + 1) % max_id

unfoldable pub id_after : ℕ → ℕ → ℕ
id_after zero id_counter = id_counter
id_after (suc n) id_counter = get_unique_id (id_after n id_counter)

id_after_lem : (n c : ℕ) → c < max_id → id_after n c ≡ (c + n) % max_id
unfolding id_after get_unique_id
id_after_lem zero c h = omega arith
id_after_lem (suc n) c h = omega (arith, id_after_lem n c h)

-- The ids are below 2^32 - 1, and two calls of `getUniqueId` that are fewer than 2^32 - 1 calls apart
-- give different ids.
pub id_after-distinct :
    (c i j : ℕ)
    → c < max_id
    → i < j
    → j < i + max_id
    → (id_after i c < max_id) × (id_after i c ≢ id_after j c)
id_after-distinct c i j h lt near =
    (omega (arith, id_after_lem i c h), omega (arith, id_after_lem i c h, id_after_lem j c h))

abbrev pub with_ids : Value → Exchange → Exchange
with_ids id x = record {
  request = record (x.request) { id = id };
  response = record (x.response) { id = id };
}

-- `new_id` is the result of `getUniqueId`.
unfoldable pub id_remap_middleware : ℕ → Middleware
id_remap_middleware new_id x =
    (with_ids (number new_id) x, continued (some (fn (λ y. (with_ids x.request.id y, no_error)))))

module _ (serialize : Thrown → Value) (ms : List Middleware) (new_id : ℕ) (x : Exchange)
    (no_error_yet : x.response.error ≡ none) where
  abbrev pub below : (Exchange × Option Thrown) × Thrown
  below = nested serialize ms (with_ids (number new_id) x)

  remapped :
      nested serialize (id_remap_middleware new_id ∷ ms) x
      ≡ (unwind (fn (λ y. (with_ids x.request.id y, no_error)) ∷ []) below.0, below.1)
  unfolding nested id_remap_middleware run_middleware
  remapped = ground (arith, no_error_yet)

  -- Behind the middleware the requests carry the new id. Where neither the check of the response nor a
  -- return handler fails below, both ids are the original one in the end.
  pub process_request-remap :
      below.0.1 ≡ none
      → process_request serialize (id_remap_middleware new_id ∷ ms) x
        ≡ rethrow below.1 (with_ids x.request.id below.0.0, none)
  unfolding run_return_handlers
  process_request-remap fine =
      process_request-nested serialize (id_remap_middleware new_id ∷ ms) x
      ∙ ap (λ o. rethrow o.1 o.0) remapped
      ∙ ground (arith, fine)

  -- Where one of them fails, the ids stay as the middleware below left them.
  pub process_request-remap_failed :
      (e : Thrown)
      → below.0.1 ≡ some e
      → process_request serialize (id_remap_middleware new_id ∷ ms) x ≡ below.0
  process_request-remap_failed e failed =
      process_request-nested serialize (id_remap_middleware new_id ∷ ms) x
      ∙ ap (λ o. rethrow o.1 o.0) remapped
      ∙ ground (arith, failed)
