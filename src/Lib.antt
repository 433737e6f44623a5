-- ===== src/Lib.antt =====
-- A verification library for the core of the 7TV backend: permissions, ids, entitlements, the
-- graph that entitlements are traversed in, CDN cache keys, the connection limiter, the changes
-- of emote sets in transactions, and the numbers and names of the event API.
--
-- Parts and files:
-- * Permissions, for shared/src/database/types/role/permissions.rs. `Bitmask` has the enums with
--   their bits, `AllowDeny` the pair of an allowed and a denied mask and its `merge`, `Record` the
--   struct `Permissions`, `Checks` its `has_*`, `denied_*` and `is_superset_of`. `Computed` folds
--   the roles of a user into one `Permissions` (apps/api/src/dataloader/full_user.rs). `Legacy`
--   converts from and to the masks of the older API (shared/src/old_types/role_permission.rs).
-- * Editors, for the editors of a user (shared/src/database/types/user/editor.rs).
-- * Ids, for `Id` (shared/src/database/id.rs): its text and its conversion to an ObjectId.
-- * Graph, for `traversal` (shared/src/database/graph.rs), and Entitlements, for the edges that
--   it walks and for the sets that the targets are sorted into
--   (shared/src/database/types/entitlement.rs). `Entitlements.Fetch` has the loaders that answer a
--   traversal (shared/src/database/entitlement_edge.rs) and fills `Graph.Store`. The roles found
--   there are those that `Permissions.Computed` takes.
-- * Cdn, for the keys of the CDN's cache (shared/src/cdn/key.rs), which hold ids.
-- * Http, for the limits on connections (shared/src/http/ratelimit.rs).
-- * Api, for the mutations of the API. `Transactions` has the loops of `transaction`
--   (apps/api/src/transactions/mod.rs): the answers of MongoDB and NATS are data, an `Attempt` for
--   a pass, and a closure is a computation on the registered events and the database
--   (`Transactions.Steps`). `EmoteSets` has `EmoteSetOperation`
--   (apps/api/src/http/v4/gql/mutations/emote_set/operation.rs): `Authority` its `check_perms`,
--   which asks `Permissions.Checks` and `Editors`, `Edit` the name, tags, capacity and deletion,
--   `Add`, `Remove` and `Update` the entries. An operation is a `Plan`, an answer at once or a
--   closure, and `Run` hands the closure to `transaction`, under what the mutex comes to. A commit
--   that MongoDB answers by an unknown result may have taken effect, and the attempt says whether
--   it did. `Global` names what they use of `Global`. `Emotes` has the loader's treatment of merged
--   emotes (apps/api/src/dataloader/emote.rs), `Sessions` the user of a request
--   (apps/api/src/http/middleware/session.rs), `Errors` the errors (apps/api/src/http/error.rs),
--   `Documents` the collections of MongoDB.
-- * Events, for the numbers and names of the event API (shared/src/event_api/types.rs) and, in
--   `Subscriptions`, its map of topics (apps/event-api/src/subscription): the arms of the loop of
--   `run` are `subscribe`, `unsubscribe`, `send_dispatch` and `send_presence`, `Keys` chooses the
--   keys of a message, and `Worlds.Step` lets callers, receivers and messages come in any order.
-- * Prelude, for what the parts share: Boolean tests, lists, bits of masks, texts, hash maps,
--   results and truth tables.
--
-- Conventions. A method that mutates `self` returns the new value. A mask is the 32-bit pattern of
-- its `i32` (64 bits in the older API), and counters of type `u64` wrap at 2 ^ 64. A text is the
-- list of its UTF-8 bytes. A `HashMap` is an association list, a `HashSet` a list. `Option` is
-- the library's, `Result` that of `Prelude.Results`, and `?` is a do block. The limiter's mutex
-- makes each of its operations one step of `Http.Connections.Worlds.Step`.
--
-- Third-party code is an interface of operations with the laws that it documents: the crates
-- bitmask-enum (`BitmaskEnum`), tokio's broadcast channels (`Broadcast`), ulid, uuid and bson
-- (`IdCrates`), ipnet (`IpNets`), the price ids of stripe (`Prices`), MongoDB, itertools and
-- scuffle's batching (`Entitlements.Fetch`), and MongoDB's operations on one document
-- (`Api.Documents`). Which entry `emotes.$` stands for is a parameter: one that meets a condition
-- of the filter.
--
-- Fuel. `Graph.traverse` runs on fuel, one unit for a round of its loop. The number of start
-- nodes and of targets of stored edges, and two more, is enough, since every round but the last
-- visits a key for the first time. `Api.Transactions.run` runs on a list of attempts, one for a
-- pass, of which eleven are enough, and its commit loop on the list of the attempt's commits;
-- `none` stands for a list that is too short. `Api.Emotes` counts the ten passes of its loops.
--
-- Not modelled: serialization, metrics, logging, the connections of the event API, the other
-- GraphQL and REST handlers, the scripts of the mutex, the loaders that only
-- fetch from the database, the image processor, the services around MongoDB and the website.
pub mod Prelude
pub mod Permissions
pub mod Ids
pub mod Cdn
pub mod Http
pub mod Graph
pub mod Entitlements
pub mod Editors
pub mod Api
pub mod Events
