-- ===== src/Rpc/Async.antt =====
-- `createAsyncMiddleware` of merged-packages/json-rpc-engine/src/createAsyncMiddleware.ts.
use fork_metamask_core.Common.{Option, none, some}
use fork_metamask_core.Rpc.Engine.{
  Exchange, Middleware, Move, Thrown, ended, continued, fn, no_error,
}

-- How an asynchronous middleware leaves: with no call of `next`, by a throw, or in `await next()`,
-- with what it does when that promise is resolved.
pub data AsyncMove : Type 0 where
  finishes : AsyncMove
  throws : Thrown → AsyncMove
  awaits_next : (Exchange → Exchange × Option Thrown) → AsyncMove

abbrev pub AsyncMiddleware : Type 0
AsyncMiddleware = Exchange → Exchange × AsyncMove

-- The call of `returnHandlerCallback`, with null or with what was thrown.
abbrev pub called_back : Exchange × Option Thrown → Exchange × Thrown
called_back (x, none) = (x, no_error)
called_back (x, some e) = (x, e)

abbrev pub moved_async : Exchange × AsyncMove → Exchange × Move
moved_async (x, finishes) = (x, ended no_error)
moved_async (x, throws e) = (x, ended e)
moved_async (x, awaits_next k) = (x, continued (some (fn (λ y. called_back (k y)))))

unfoldable pub create_async_middleware : AsyncMiddleware → Middleware
create_async_middleware m x = moved_async (m x)
