-- ===== src/Adapters/Mongo.antt =====
-- adapters/mongo.js: `MongoQueue` over a collection of the MongoDB driver, which is a parameter.
-- A query is a predicate on rows, an update a function on the row. `now - sendingTimeout` is
-- written on the other side of the comparison, where no difference falls below 0. The projections
-- leave out fields that no caller reads, and are not modelled.
mod Driver
mod Methods
pub mod Indexes
pub mod Counts
pub mod Guards
pub mod Contract
pub use Driver.{Collection, Laws, UpdateResult, DeleteResult, any_str}
pub use Methods.{Instance}
unfoldable pub use Methods.{
  due_query, iterate, pending_query, get_pending_to, push, cancel, remove, update, lease_query,
  claim_query, append_query, set, set_query, append,
}
