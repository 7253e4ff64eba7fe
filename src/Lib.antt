-- ===== src/Lib.antt =====
-- The server of a household inventory (module github.com/ankek/Household-Objects-Dev/server), as far
-- as clients that work offline depend on it: the pull of changes, the push of mutations, the invites to a household, and the
-- locations, labels, stock adjustments and further rows of items that pushes write. Beside these, the escaping of exported values and the limiter of failed attempts.
--
-- Prelude passes on the names of the libraries, and holds what the parts share: Boolean tests,
-- lists by native numbers, results, rows selected from a table, sorting, signed integers.
--
-- Sync is server/internal/sync/reader.go and horizon.go over server/internal/storage/sync.go.
--   Sync.Types       the rows, candidates, pages and errors, and the repository's interface
--   Sync.Repository  the listings and the tombstone watermark of a database, and the contract Serves
--                    that the reader relies on
--   Sync.Reader      Reader.Pull and what it calls; Groups, Window, Fetch, Fill and Complete lead to
--                    the theorem on one page, Drain follows a client through all pages, and
--                    Single is a page of one row
--   Sync.Horizon     Reader.TooOld and Reader.PullOrTooOld
-- A row has a household, an id, a sequence number and a deletion time; its other columns are a type
-- parameter, since no code here reads them. The eleven tables are one function of the entity type.
-- The database does not change during a pull. `sort.Slice` and ORDER BY are arguments of the
-- model with their contract (Prelude.Sorting); insertion sort shows that it can be met.
-- The pull takes `limit + 1` on int64, which wraps for the largest limit; SQLite reads a negative
-- limit as none.
--
-- Push is server/internal/sync/push.go over server/internal/storage/push_commit.go.
--   Push.Rows        the rows that hang on an item
--   Push.Types       the other rows of the tables, mutations, outcomes and errors
--   Push.Storage     the statements of storage/push.go, field_versions_record.go and
--                    internal/db/changeseq.go, with the constraints of the tables
--   Push.Items       createItemTx and updateItemTx of storage/items.go; Effects is what they write,
--                    Sequence the change counter, Fresh the rows above it, and Pulled an update
--                    with the pull that follows it
--   Push.Merge       decoding, and the policy that divides the fields of a stale mutation;
--                    Split and Recorded are its theorems, and Nullable decodes Booleans and nulls
--   Push.Item        pushItem; Values, Merged, NoLostUpdate and Keeps are its theorems
--   Push.Entity      what the other handlers share: the version check, and what follows a write
--   Push.Location    pushLocation; Push.Label pushLabel; Push.ItemLabel pushItemLabel,
--                    pushItemLabelDelete and pushAttachment; Push.Adjustment pushStockAdjustment;
--                    Keeps under a handler is its theorems
--   Push.Dispatch    pushEntityDispatch
--   Push.Apply       ApplyMutation; Logged and Ledger are the theorems on what it records
--   Push.Batch       Push; Stopped and Replay are the theorems on pushing again
-- An operation takes the store and returns a result with the new store; an error has no store, as a
-- transaction that fails is rolled back. The handler of an entity type is looked up
-- in the argument `handlers` of Push.Apply, which Push.Dispatch fills with the table of the source. A classified error ends a push with a conflict and no write: each
-- such error comes before the first write of its operation, as a parent that passes the check for a live
-- location satisfies the foreign key too. What comes from outside the repository is the argument `Outside`: encoding/json, UUIDs,
-- drawn short codes, sort.Strings, and the
-- `==` of Go on float64, whose values are the natural numbers of their 64 bits. The loop over short codes counts its ten attempts down, so it
-- needs no further bound.
--
-- Importexport.Escape is server/internal/importexport/escape.go, on bytes as numbers; RoundTrip is its
-- theorems.
--
-- Ratelimit is server/internal/ratelimit/limiter.go: Delay is the doubling delay on 64 bits, Entries the
-- invariant of the entries, and Blocks what a caller sees. The entries are one list in the order of
-- their use; times are natural numbers of nanoseconds, and adding a delay to one does not overflow.
-- The loop that doubles the delay counts down the failures beyond the free ones.
--
-- Locations is server/internal/storage/locations.go, over the store of Push.Types.
--   Locations             createLocationTx, updateLocationTx and locationMoveCreatesCycle
--   Locations.Removal     Delete, with the reassignment of what a location holds
--   Locations.Repository  Get, Create and Update of the repository
--   Locations.Descent     Descendants; Searched and Descended are its theorems
--   Locations.Rooted, Walk, Relocate, Tree   parents that end at a root, the number of steps of a walk
--                         along them, what a statement does to them, and the invariant Tree
--   Locations.Created, Keeps, Removed        the theorems on the three operations that write
-- The walk of the cycle check has as many steps as the household has rows, and one more; a row's
-- parents cannot pass more rows than there are. The search for descendants has the same bound: each round takes
-- a place of the queue, and each edge puts one there once. A parameter that a check requires to be positive is a
-- natural number. The database leaves the order of the rows open: the map of the parents does not
-- depend on it, since ids are unique.
--
-- Labels is server/internal/storage/labels.go and item_labels.go, over the store of Push.Types.
--   Labels           createLabelTx, updateLabelTx, and the repository's Create, Update and Delete; Clash and
--                    Distinct are its theorems
--   Labels.Edges     attachItemLabelTx and detachItemLabelTx, with the repository's Attach and Detach;
--                    Attached and Reattached are its theorems
--
-- Parts is the warranty, the sale and the purchase of an item, its identifications and its custom fields:
-- server/internal/storage/warranty.go, sale.go, purchase.go, item_identifications.go and
-- item_custom_fields.go, over the store of Push.Types. The five files have one shape, with the columns
-- and the checks of a table as what differs; the same holds for their handlers in push_commit.go.
--   Parts            a `Table`, and createWarrantyTx, updateWarrantyTx and the repository's Create, Update
--                    and Delete for any table; Keeps is what they write
--   Parts.Push       pushWarrantyBlock and the four handlers like it; Pushes and Logs are what they do to
--                    the store
--   Parts.Warranty, Sale, Purchase, Identification, CustomField   the five tables and handlers
--   Parts.CustomField.ValueUnion   pushCustomFieldValueUnionRule; Together is its theorem
--   Parts.Alone, Steps   the live rows of an item, and the operations in sequence
-- A REAL column keeps the 64 bits of a float64. An item that is live satisfies the foreign key of its rows.
--
-- Items is the repository of server/internal/storage/items.go: Create, Update, and Delete with its cascade
-- over the tables of Parts and the labels of the item; Removal is its theorem.
--
-- Stock is server/internal/storage/stock_adjustments.go: the repository's Create, with its sum on int64
-- (Prelude.Int.add64). Adjusted is one adjustment, and History a sequence of them.
--
-- Accounts is the first household with its users and invites: server/internal/storage/register.go,
-- invites.go, invite_redeem.go and invites_admin.go, and the service of server/internal/invite.
--   Accounts            the rows of users and invites, and RegisterFirstUser
--   Accounts.Invites    CreateInvite, InviteRedeemable, RedeemInvite and RevokeInvite
--   Accounts.Redeemed, Changes   what they write
--   Accounts.Spent, Redeemable, Revoked   what becomes of an invite
--   Accounts.Service    Issue and Redeem; Issuing is its theorem
-- A user name is compared by the argument `same_name`, the collation NOCASE of SQLite. The times are
-- milliseconds, and the service gets the time as an argument. The password is not cleared from memory.
--
-- Each of these has its witnesses and runs in a module Tests, Items in that of Parts.
--
-- Not modelled: failures of the database other than its constraints, concurrency (SQLite has one
-- writer, and every operation here is one transaction), HTTP, authentication, attachments, backups,
-- the import of archives, the other operations on
-- accounts, and the other parts that the development does not name.
pub mod Prelude
pub mod Accounts
pub mod Importexport
pub mod Items
pub mod Labels
pub mod Locations
pub mod Parts
pub mod Push
pub mod Ratelimit
pub mod Stock
pub mod Sync
