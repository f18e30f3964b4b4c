-- ===== src/Lib.antt =====
-- FUNI: a liquidity-provision bot for Uniswap pools. It plans, signs and tracks transactions, and keeps
-- what it knows in SQLite. This library models the parts that decide what may happen to money: the
-- tables that make each transaction, authorization, session and notice happen once, the accounting of
-- a position, and the arithmetic of a mint plan.
--
-- Ledger models packages/lp-ledger/src/index.ts:
--   Ledger/Journal    the chain transaction journal: `persistChainPreparedTransaction`,
--                     `transitionChainTransaction`, `reconcileDurableChainTransaction`
--   Ledger/Flow       the Telegram flow sessions: `createTelegramFlow`, `telegramFlow`,
--                     `activeTelegramFlow`, `transitionTelegramFlowCAS`,
--                     `applyTelegramHydrationRender`, `cancelTelegramFlow`, `recoverTelegramFlows`
--   Ledger/Callback   the one-shot authorizations: `authorizeChainCallback`, `consumeChainCallback`
--   Ledger/Delivery   the PnL card deliveries: `ensurePnlCardDelivery`, `claimPnlCardDelivery`,
--                     `markPnlCardDeliverySendStarted`, `finalizePnlCardDelivery`,
--                     `recoverPnlCardDeliveryClaims`
--   Ledger/Confirmation the confirmation requests: `createConfirmation`, `confirmation`,
--                     `resolveConfirmation`, `recoverConfirmations`
--   Ledger/NonceMutex the nonce mutex of a wallet: `acquireChainNonceMutex`, `releaseChainNonceMutex`
--   Ledger/Canary     the canary: its budget, the claims of it, its intents, and the operators' arms
--   Ledger/Positions  the in-memory accounting: the class `Ledger`
-- Bot models apps/telegram-lp-bot/src:
--   Bot/LivePreview   live-preview-lifecycle.ts: `LivePreviewExecutionContext`,
--                     `runLivePreviewDeliveryWorkflow`
-- V4 models packages/uniswap-v4-adapter/src/index.ts:
--   V4/Price          `sqrtPriceAtTick`
--   V4/Pool           `decodeV4Fee`, `classifyV4Hooks`, `v4ExecutionBlockers`, `v4ApprovalRequirement`
--   V4/Plan           `genericV4Roles`, `buildGenericV4SingleSidedPlanAtTicks`, `buildV4Mint`'s guards,
--                     `amountsForLiquidity`, `slippageMinimums`, `classifyV4RangeState`
-- Ladder models the bid ladder of apps/cli/src:
--   Ladder/Planner    `v4BidLadderSlices` and `splitV4BidLadderFunding` of v4-bid-ladder-planner.ts
--   Ladder/Reposition `classifyV4BidLadderRepositionState`, `v4BidLadderUsdResetStateSemantics`,
--                     `evaluateV4BidLadderUsdResetEligibility` and
--                     `classifyV4BidLadderUsdResetOutputs` of v4-bid-ladder-usdg-reset.ts
--   Ladder/Store      the stored ladders of packages/lp-ledger/src/index.ts: `createBidLadder`,
--                     `loadBidLadder`, `listBidLadderLegs`, `transitionBidLadderUsdReset`,
--                     `listBidLadderUsdResetCandidates`
--   Ladder/Cancellation `plannedV4BidLadderCancellationStatus`, `cancelPlannedV4BidLadder` and
--                     `expireAbandonedPlannedV4BidLadders` of v4-bid-ladder-cancellation.ts
-- Workers models apps/workers/src/state-cache-scheduling.ts:
--   Workers/StateCache `runStateCacheWorkerCycle`, `acquireStatePersistenceLease`,
--                     `releaseStatePersistenceLease`, `leaseStateRefreshByLane`,
--                     `leasePriorityDirectLookupRefresh`, `runnablePriorityWork`, `runnableUrgentWork`,
--                     `fullyActionableV4BidLadder`, `convergeOpenPendingV4BidLadder`
-- Gates models apps/cli/src/execution-gates.ts: `parseStrictBoolean`, `readCanonicalExecutionGates`
-- and `evaluateCanonicalExecutionGates`.
-- Common holds what they share: tests, results, texts, signed integers, and SQLite tables as lists of
-- rows with the statements SELECT, UPDATE, DELETE and INSERT on them.
--
-- A table is the list of its rows in insertion order. An immediate transaction is one function from
-- the table to a result: where the source throws, SQLite rolls back, and the model returns an error
-- and no table. UNIQUE constraints and unique indexes are those of infra/migrations. Instants are
-- natural numbers of milliseconds, and `bigint` amounts that the code keeps non-negative are natural
-- numbers; a tick is a signed integer. A double is its bit pattern, which the code modelled here only
-- stores or adds. No definition needs fuel: every loop is over a list.
--
-- Not modelled: JSON and telemetry encoding, files, backups and migrations; ABI encoding, the RPC
-- clients, signing and broadcasting; the Telegram user interface; the live executors of apps/cli.
pub mod Bot
pub mod Common
pub mod Gates
pub mod Ladder
pub mod Ledger
pub mod V4
pub mod Workers
