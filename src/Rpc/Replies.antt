-- ===== src/Rpc/Replies.antt =====
-- What the callers of JsonRpcEngine.ts get back.
use fork_metamask_core.Common.{
  eqb, ◌≢◌, ◌≡◌, refl, Bool, true, Option, none, some, List, [], ◌∷◌, if◌then◌else◌, arith, inl,
  inr, length, Bool-cases, Option-cases,
}
use fork_metamask_core.Common.Monad.{ok, err}
use fork_metamask_core.Common.Js.{Value, null, truthy, is_string}
use fork_metamask_core.Rpc.Engine.{
  Request, Response, Exchange, Middleware, ErrorField, Thrown, is_error, field_truthy,
  process_request, no_error, serialized, RpcError, raw, rpc, not_plain_object, no_string_method,
}
use fork_metamask_core.Rpc.Handle.{
  Incoming, other, plain, Reply, Engine, start, errored, replied, with_method, no_method, notified,
  handle_one, promise_handle, handle_each, handle_batch, destroy, push, handle, handle_all,
  destroyed, error_response, id_or_null,
}

-- A response to a failed request: no result, and an error that is one.
pub record IsFailure (r : Response) : Type 0 where
  pub no_result : r.result ≡ none
  pub field : ErrorField
  pub has_field : r.error ≡ some field
  pub field_is_error : field_truthy field ≡ true

module _ (serialize : Thrown → Value) (is_request : Request → Bool)
    (serializes : (e : Thrown) → truthy (serialize e) ≡ true) where
  errored-IsFailure : (e : Thrown) (r : Response) → IsFailure (errored serialize is_request e r)
  errored-IsFailure e r = elim (Option-cases r.error) [
    | inl h ↦ record {
      no_result = ground (arith, h);
      field = serialized (serialize e);
      has_field = ground (arith, h);
      field_is_error = serializes e;
    }
    | inr (f, h) ↦ elim (Bool-cases (field_truthy f)) [
      | inl t ↦ record {
        no_result = ground (arith, h, t);
        field = f;
        has_field = ground (arith, h, t);
        field_is_error = t;
      }
      | inr t ↦ record {
        no_result = ground (arith, h, t);
        field = serialized (serialize e);
        has_field = ground (arith, h, t);
        field_is_error = serializes e;
      }
    ]
  ]

  abbrev Failed : Reply → Type 0
  Failed y = (r : Response) → y.response ≡ some r → is_error y.error ≡ true → IsFailure r

  replied-Failed : (o : Exchange × Option Thrown) → Failed (replied serialize is_request o)
  replied-Failed (x, none) r h e = absurd (ground arith)
  replied-Failed (x, some f) r h e = elim (Bool-cases (is_error f)) [
    | inl t ↦
        let same : errored serialize is_request f x.response ≡ r = ground (arith, t) in
        rw same at (errored-IsFailure f x.response)
    | inr t ↦ absurd (ground (arith, t))
  ]

  error_response-Failed :
      (id : Value) (e : RpcError) (t : Thrown)
      → Failed (record { error = t; response = some (error_response id e) })
  error_response-Failed id e t r h _ =
      let same : error_response id e ≡ r = ground (arith, h) in
      let failure : IsFailure (error_response id e) = record {
        no_result = refl;
        field = raw e;
        has_field = refl;
        field_is_error = refl;
      } in
      rw same at failure

  silent-Failed : (t : Thrown) → Failed (record { error = t; response = none })
  silent-Failed t r h e = absurd (ground (arith, h))

  notified-Failed : (o : Option Thrown) → Failed (notified serialize is_request o)
  notified-Failed none = silent-Failed no_error
  notified-Failed (some e) = silent-Failed e

  no_method-Failed :
      (o : Option (Request → Option Thrown)) (q : Request)
      → Failed (no_method serialize is_request o q)
  no_method-Failed none q =
      error_response-Failed (id_or_null q.id) no_string_method (rpc no_string_method)
  no_method-Failed (some handler) q = elim (Bool-cases (is_request q)) [
    | inl t ↦ rw t (error_response-Failed (id_or_null q.id) no_string_method (rpc no_string_method))
    | inr t ↦ rw t (silent-Failed no_error)
  ]

  with_method-Failed :
      (o : Option (Request → Option Thrown)) (ms : List Middleware) (q : Request)
      → Failed (with_method serialize is_request o ms q)
  with_method-Failed none ms q = replied-Failed (process_request serialize ms (start q))
  with_method-Failed (some handler) ms q = elim (Bool-cases (is_request q)) [
    | inl t ↦ rw t (replied-Failed (process_request serialize ms (start q)))
    | inr t ↦ rw t (notified-Failed (handler q))
  ]

  handle_one_keeps :
      (engine : Engine) (q : Incoming) → Failed (handle_one serialize is_request engine q)
  unfolding handle_one
  handle_one_keeps engine (other v) =
      error_response-Failed null not_plain_object (rpc not_plain_object)
  handle_one_keeps engine (plain q) = elim (Bool-cases (is_string q.method)) [
    | inl t ↦ rw t (with_method-Failed engine.notification_handler engine.middleware q)
    | inr t ↦ rw t (no_method-Failed engine.notification_handler q)
  ]

  -- Whatever is handed over: a reply with an error and a response has a response with no result, and
  -- with an error that counts as one.
  pub handle_one-IsFailure :
      (engine : Engine) (q : Incoming) (r : Response)
      → (handle_one serialize is_request engine q).response ≡ some r
      → is_error (handle_one serialize is_request engine q).error ≡ true
      → IsFailure r
  handle_one-IsFailure engine q r h e = handle_one_keeps engine q r h e

module _ (serialize : Thrown → Value) (is_request : Request → Bool) (engine : Engine)
    (no_handler : engine.notification_handler ≡ none) where
  -- With no handler of notifications, everything is answered.
  has_response : (q : Incoming) → (handle_one serialize is_request engine q).response ≢ none
  unfolding handle_one
  has_response (other v) h = ground arith
  has_response (plain q) h = ground (arith, no_handler)

  answered :
      (q : Incoming) → (r : Response) × (promise_handle serialize is_request engine q ≡ ok (some r))
  unfolding promise_handle
  answered q = elim (Option-cases (handle_one serialize is_request engine q).response) [
    | inl e ↦ absurd (has_response q e)
    | inr (r, e) ↦ (r, ground (arith, e))
  ]

  handle_each-length :
      (qs : List Incoming)
      → (rs : List Response) × (handle_each serialize is_request engine qs ≡ ok rs)
        × (length rs ≡ length qs)
  unfolding handle_each
  handle_each-length [] = ([], refl, refl)
  handle_each-length (q ∷ qs) =
      let (r, h) = answered q in
      let (rs, e, l) = handle_each-length qs in (r ∷ rs, ground (arith, h, e), omega (arith, l))

  -- With no handler of notifications, a batch is answered by one response for each request, and an
  -- empty batch by one response.
  pub handle_batch-length :
      (qs : List Incoming)
      → (rs : List Response) × (handle_batch serialize is_request engine qs ≡ ok rs)
        × (length rs ≡ (if eqb (length qs) 0 then 1 else length qs))
  unfolding handle_batch
  handle_batch-length [] = (_, refl, refl)
  handle_batch-length (q ∷ qs) =
      let (rs, e, l) = handle_each-length (q ∷ qs) in (rs, e, ground (arith, l))

-- A destroyed engine throws at every call, and holds no middleware.
pub destroy_lem :
    (serialize : Thrown → Value) (is_request : Request → Bool) (engine : Engine) (m : Middleware)
    (q : Incoming) (qs : List Incoming)
    → let dead = (destroy engine).1 in
      (push m dead ≡ (err destroyed, dead))
      × (handle serialize is_request q dead ≡ (err destroyed, dead))
      × (handle_all serialize is_request qs dead ≡ (err destroyed, dead))
unfolding destroy push handle handle_all
destroy_lem serialize is_request engine m q qs = (refl, refl, refl)
