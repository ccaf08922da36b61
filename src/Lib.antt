-- ===== src/Lib.antt =====
-- Models of the core of this repository: the controllers and the engine by which the parts of a
-- wallet keep state, call one another and answer requests. A controller keeps its state in one
-- object and offers methods; the messenger calls actions and publishes events between
-- controllers; the engine passes a JSON-RPC request through middleware; approvals, messages and
-- queues hold what waits for the user, as promises.
--
-- The files:
-- In Common: shared names, Boolean tests, arrays and JavaScript maps as lists, its values, and
-- code that can throw, as functions from a state to a result and a state. What was written
-- before a throw stays written.
-- In Approval (packages/approval-controller/src/ApprovalController.ts, errors.ts): State has the
-- data, Queries the methods that read, Requests add, accept, reject, clear and the state
-- updates, Flows the approval flows. A promise is a number, and the state logs each call of its
-- callbacks. An id and a time that nanoid and Date.now give are arguments.
-- In Messenger (packages/base-controller/src/ControllerMessenger.ts): Bus is
-- ControllerMessenger, Restricted its restricted views. A publication gives the list of the
-- calls of handlers that it makes.
-- In Rpc (merged-packages/json-rpc-engine/src): Engine is the loop over middleware and return
-- handlers of JsonRpcEngine.ts, Handle the handling of requests, notifications and batches,
-- Remap idRemapMiddleware.ts and getUniqueId.ts, Merge asMiddleware, mergeMiddleware.ts and
-- createScaffoldMiddleware.ts, Async createAsyncMiddleware.ts. Middleware is a parameter, as a
-- move that it makes with a request and a response; serializeError and isJsonRpcRequest are
-- parameters.
-- In Queue (packages/queued-request-controller/src/QueuedRequestController.ts): a call of
-- enqueueRequest is cut at its awaits, and steps of calls are interleaved at will.
-- In RateLimit (packages/rate-limit-controller/src/RateLimitController.ts): counts of calls, and
-- timers that fire at will.
-- In Announcement (packages/announcement-controller/src/AnnouncementController.ts):
-- announcements by id, and which were seen.
-- In Messages (packages/message-manager/src/AbstractMessageManager.ts): the list of messages,
-- the state saved from it, and the promises of waitForFinishStatus.
-- In Transaction (packages/transaction-controller/src): State has the data of
-- TransactionController.ts and types.ts, Trim trimTransactionsForState, Params the normal form
-- and the checks of parameters (utils/utils.ts, utils/validation.ts,
-- utils/external-transactions.ts), GasFees utils/gas-fees.ts, Store the array of the state and
-- updateTransaction, Controller the methods that add, end and remove transactions, Approve
-- approveTransaction, Process what processApproval does with the answer to its request, Replace
-- stopTransaction and speedUpTransaction, External the transactions that others report, Tracker
-- helpers/PendingTransactionTracker.ts, Steps the operations one after another, with nothing in
-- between at their awaits. Transactions and arrays are shared and changed in place, so they
-- stand under references; what is awaited is an argument. An array has, besides its items, the
-- property "-1", which a write at the index of a missing item sets. The entries of a history are
-- tokens in a list of each transaction, which copies of one object do not share.
-- In Permission (packages/permission-controller/src): State has the data of
-- PermissionController.ts, Permission.ts, Caveat.ts and errors.ts, Validation the checks of
-- specifications, permissions and caveats, Subjects the methods that read the table and revoke,
-- Caveats those on caveats, Grants grantPermissions, Requests requestPermissions and its side
-- effects, Methods the execution of restricted methods and permission-middleware.ts, Approvals
-- the answers to a request that waits in Approval, RpcMethods the two RPC methods, Metadata
-- SubjectMetadataController.ts. An update works on the table, and a throw in it drops what it
-- wrote; the functions of specifications are parameters, by what they return or throw.
--
-- In each tree the other modules hold proofs, and Tests (and OtherTests, with inputs in Samples)
-- the theorems at concrete inputs. Every loop of the source is a recursion on its list, so there
-- is no fuel. Numbers have no bound but where the source sets one, as getUniqueId does.
--
-- Not modelled: the patches of immer and the metadata of states, which are a package's; messages
-- as text where only their kind matters; handlers that call the messenger again while a
-- publication goes on; and the controllers whose work is requests to services, keyrings and
-- streams. NetworkController stands outside this development, and of TransactionController
-- updateTransactionGasFees, the estimate of gas and the helper for incoming transactions.
pub mod Announcement
pub mod Approval
pub mod Common
pub mod Messages
pub mod Messenger
pub mod Permission
pub mod Queue
pub mod RateLimit
pub mod Rpc
pub mod Transaction
