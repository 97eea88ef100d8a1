-- ===== src/Lib.antt =====
-- BoardBite POS: tables, orders, payments and coupons of a board game cafe, on the server side
-- (server/src). The services keep everything in one SQLite database through Prisma; each operation
-- checks, then writes in a transaction, and the transactions run one behind the other. Only the
-- accounts of the staff and the closing of a day are read and written without a transaction.
--
-- How the parts meet. A table is opened (services/tableSession.ts), guests join it with a device
-- (services/customerSession.ts), order from the menu (services/order.ts, services/menuCatalog.ts,
-- services/optionRules.ts, services/inventory.ts) and pay (services/payment.ts); what they owe is
-- never stored but computed from orders and payments (services/billing.ts). A payment, a reversal or
-- the last serving asks tableSession.ts to settle the table, which may end the session and revoke its
-- devices. A coupon (services/coupon.ts) is used by a table (services/tableCoupon.ts) or by a sale at the
-- counter (services/counterSale.ts), which has no table and is paid at once; its discount is shared
-- over the lines (services/discountAllocation.ts). The equal split (services/splitEvenly.ts), the guard
-- of the login (auth/loginGuard.ts), the reports and the closing of a day (services/reporting.ts,
-- services/closing.ts), the gates of the staff (middleware/) and the exports
-- (services/csv.ts) stand beside.
--
-- The files.
--   Prelude        tests, lists, integers and computations that may throw, shared by all
--   Domain         types/domain.ts and the rows of prisma/schema.prisma
--   Billing        services/billing.ts: computeBill is compute_bill, computeItemPaymentStatus at one
--                  item is remaining_quantity; computeCounterSaleLedger in Billing/Sale;
--                  Billing/Effects has what one more row does to a bill
--   TableSession   services/tableSession.ts: openTable, rotateJoinCode and the blockers here, closeTable,
--                  maybeAutoSettleTableSession, setTableEnabled and extendGameTime in TableSession/Close
--   Payment        services/payment.ts: the amount mode here, the item mode in Payment/Items,
--                  createPayment and createDiscount in Payment/Create, voidPayment in Payment/Void
--   Menu           isSoldOut, channelAllows, servingModeOf and services/optionRules.ts
--   Order          services/order.ts: the transitions here, cancelOrder in Order/Cancel, validateItemOptions,
--                  resolveOrderLines and createOrder in Order/Lines
--   Inventory      services/inventory.ts: applySoldOutInTx, setSoldOut, setInventoryLink,
--                  deleteInventoryItem, and cancelOrder with the products that ran out
--   Coupon         services/coupon.ts, with issueCouponBatch in Coupon/Issue
--   CounterSale    services/counterSale.ts: the cart and computeCouponDiscount here, quoteCounterSale in
--                  CounterSale/Quote, confirmCounterSale in CounterSale/Confirm, cancelCounterSale and
--                  markCounterOrderPickedUp in CounterSale/Cancel
--   TableCoupon    services/tableCoupon.ts
--   Redemption     what counter sales, tables and the coupons' administration do to coupons
--   Devices        services/customerSession.ts
--   Allocation, Split, Login   allocateProportional, splitEvenly, and auth/loginGuard.ts
--   Auth           auth/totp.ts and auth/mfa.ts in Auth/Totp, auth/passwordPolicy.ts in Auth/Password,
--                  middleware/requireRole.ts, csrf.ts and requireTableSession.ts in Auth/Gate,
--                  services/staffAccount.ts in Auth/Staff
--   Report         computeRevenueSummary of services/reporting.ts, and services/closing.ts in
--                  Report/Closing
--   Retry, Csv     services/writeConflict.ts and services/csv.ts, with a reader of them in Csv/Read
--   Examples       small databases to which the theorems are applied
-- The other files below these hold proofs and say which.
--
-- How the code is read. The database is the record Db, a list for each table, newest row first. An
-- operation is a function of the database that returns the one after it or the error that is thrown;
-- a throw inside a transaction leaves no write. Where the code reads before its transaction, the
-- function takes two databases: `seen`, which those reads find, and `db`, which the transaction finds,
-- so that a theorem about both holds whatever other requests did in between. A conditional updateMany
-- is an update of the rows that fit, with their number. Ids, clock, random codes and hashes are
-- arguments. An id is a number that is only compared, an instant a number of milliseconds, an amount a
-- natural number of won, and what may fall below zero an integer. There is no bound on numbers: the
-- code's are doubles, and all sums of prices stay far inside the range where these are exact.
--
-- Loops are structural, but for three. The loop of allocateProportional runs on fuel, one round of the
-- lines, which is enough since rounding down leaves less than one won for each line that has room. The
-- loop of allocateCodes runs over the 999 numbers that there are, that of withWriteConflictRetry over
-- the four times that a transaction is tried again.
--
-- Not modelled: audit entries, events, texts that are only shown, the lists for the screens, the
-- editing of the menu, the coupons in reports, the reset of data, Base32 and encryption, backups,
-- routes and sockets, and the client. Names of menu items are only shown, but for the hash of a quote,
-- which covers them in the code and not here.
pub mod Prelude
pub mod Domain
pub mod Split
pub mod Allocation
pub mod Billing
pub mod TableSession
pub mod Payment
pub mod Menu
pub mod Order
pub mod Inventory
pub mod Coupon
pub mod CounterSale
pub mod TableCoupon
pub mod Redemption
pub mod Devices
pub mod Login
pub mod Auth
pub mod Report
pub mod Retry
pub mod Csv
pub mod Examples
