-- ===== src/Lib.antt =====
-- EmuKey: a shop for software licences. The backend sells licences of providers, records each
-- licence on a chain by commands that a relayer sends, reads the chain's events back, and hands the
-- issued licence over to its provider. This library models the parts of the backend that keep state
-- across failures, as functions on the rows of the database.
--
-- The parts, with paths from the repository's root:
--
-- Chain/Commands.antt and its children: backend/src/modules/blockchain/infrastructure/
-- chain-command.repository.ts. A command is a row of chain_commands; each method is a function of the
-- same name (claimNext is claim_next) from the table to an Outcome: an error, after which the
-- transaction is rolled back, or a result and the new table. An update passes the guard `permitted`,
-- which is the trigger guard_chain_command_immutable_fields and the checks of
-- backend/database/schema.sql on the modelled columns. Steps.antt has the runs: any statements in any
-- order.
--
-- Chain/Relay.antt: backend/src/modules/blockchain/application/chain-command.service.ts, `processNext`
-- on top of these statements, and Chain/Relay/Reconcile.antt its `reconcileUnknown`. The relayer
-- (ChainRelayerPort) is an argument, any function.
--
-- Chain/Checkpoint.antt: backend/src/modules/blockchain/infrastructure/
-- chain-indexer-checkpoint.repository.ts; Coverage.antt has the runs of several indexers on one
-- checkpoint. Chain/Scan.antt: how backend/src/modules/blockchain/application/
-- rpc-chain-indexer.service.ts reads the logs of a range. Its loop has fuel for one round for each
-- block and one more, which is enough because each round moves on by at least one block.
-- Chain/Scan/Reorgs.antt: what it does with the logs (indexRange, ingest). Chain/Identifiers.antt:
-- identifiers as UUIDs and as bytes (bytes16ToUuid there, uuidToBytes16 of backend/src/platform/
-- crypto/license-crypto.ts).
--
-- Handoff/Policy.antt: backend/src/modules/licensing/domain/provider-delivery-policy.ts.
-- Handoff/Deliveries.antt: backend/src/modules/licensing/infrastructure/
-- provider-delivery.repository.ts, the deliveries of licences and their leases.
-- Handoff/Integrations.antt: provider-integration.repository.ts beside it, whose `save` also changes
-- deliveries; Deliveries/Lifecycle.antt has the statements of both in any order. Handoff/Service.antt: backend/src/modules/licensing/application/
-- provider-handoff.service.ts; the provider's server and the cipher are arguments.
--
-- Commerce/Retry.antt and Commerce/Renewal.antt: backend/src/modules/commerce-payment/domain.
-- Commerce/Store.antt: the tables of backend/src/modules/commerce-payment/infrastructure/
-- commerce.repository.ts, with the triggers on orders and attempts as far as the code does not test
-- the same before, and `commit` for the deferred trigger enforce_payment_effect_projection, as far as
-- it tests a cancelled order: what it tests of an accepted one, the acceptance writes itself; Orders.antt, Checkout.antt, Payments.antt (with Fulfilment.antt) and Review.antt:
-- its operations, and Steps.antt any sequence of them; Steps/Closed.antt is the interface between the
-- operations and what a property has to keep. Ledger.antt compares orders with the transactions that
-- pay for them. The unique indexes on attempts and transactions are not taken for granted and left
-- out; the index on open renewals, which can refuse an order, is in insert_order. One clock value
-- stands for all statements of an operation. The calendar of Date and of PostgreSQL, and the ids of
-- randomUUID, are arguments.
--
-- Identity/Users.antt: backend/src/modules/identity-access/identity.repository.ts, the statements that
-- change the state of an account.
--
-- Prelude/Rows.antt has the SQL statements as functions on lists of rows. Examples.antt applies the
-- theorems to concrete inputs.
--
-- Representation: numbers are natural numbers, times milliseconds, identifiers, addresses (in lower
-- case) and hashes are numbers, since they are only compared. A statement is atomic, as its
-- transaction is; the clock is an argument of each. SKIP LOCKED needs no model then.
--
-- Not modelled: the lists and receipts of commerce and its service, the statements of licensing,
-- sessions and invitations, catalog, notifications, support, controllers and validation, the
-- frontends and the contracts; of the relay, the recovery of activation envelopes and the
-- reconciliation of receipts. The factor by which deliveryRetryDelay spreads a delay is computed in
-- floating-point numbers, and is an argument.
pub mod Prelude
pub mod Commerce
pub mod Handoff
pub mod Chain
pub mod Identity
pub mod Examples
