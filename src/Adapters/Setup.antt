-- ===== src/Adapters/Setup.antt =====
-- adapters/: the constructors of the three queues, and how each comes to its prefix. The connection
-- is the user's object; what is sent to it for the schema or the indexes is not looked into.
pub mod Prefixes
use mail_time.Prelude.{
  Bool, true, false, not, ◌||◌, ◌&&◌, [], ◌++◌, Option, none, some, if◌then◌else◌,
}
use mail_time.Js.Text.{Text, lit, is_empty}
use mail_time.Js.Value.{Value, undefined, str, prop, truthy}
use mail_time.MailTime.Options.{is_object, is_func, is_bool, is_exactly_true}
use mail_time.Adapters.Redis.Keys.{apply_prefix}

-- One for each `throw`.
pub data Refusal : Type 0 where
  no_options no_connection no_boolean no_valid_prefix : Refusal

-- What a constructor leaves: the connection, and the prefix if it was given.
pub record Setup : Type 0 where
  pub connection : Value
  pub use_hash_tags : Bool
  pub prefix : Option Text

pub data Made : Type 0 where
  made : Setup → Made
  refused : Refusal → Made

abbrev pub own_prefix : Value → Option Text
own_prefix (str p) = some p
own_prefix _ = none

-- `typeof opts.prefix === 'string' && opts.prefix.length > 0`.
abbrev pub filled_prefix : Value → Option Text
filled_prefix (str p) = if is_empty p then none else some p
filled_prefix _ = none

abbrev pub is_undefined : Value → Bool
is_undefined undefined = true
is_undefined _ = false

unfoldable pub new_mongo_queue : Value → Made
new_mongo_queue opts =
    if not (is_object opts)
    then refused no_options
    else if not (truthy (prop (lit "db") opts))
    then refused no_connection
    else made (record {
      connection = prop (lit "db") opts;
      use_hash_tags = false;
      prefix = own_prefix (prop (lit "prefix") opts);
    })

unfoldable pub new_postgres_queue : Value → Made
new_postgres_queue opts =
    let client = prop (lit "client") opts in
    if not (is_object opts)
    then refused no_options
    else if not (truthy client) || not (is_func (prop (lit "query") client))
    then refused no_connection
    else made (record {
      connection = client;
      use_hash_tags = false;
      prefix = filled_prefix (prop (lit "prefix") opts);
    })

abbrev pub is_some_name : Option Text → Bool
is_some_name none = false
is_some_name (some n) = true

-- A prefix that is given is checked at once.
abbrev pub accepts_prefix : Bool → Option Text → Bool
accepts_prefix use_hash_tags none = true
accepts_prefix use_hash_tags (some p) = is_some_name (apply_prefix use_hash_tags p)

unfoldable pub new_redis_queue : Value → Made
unfolding apply_prefix
new_redis_queue opts =
    let use_hash_tags = prop (lit "useHashTags") opts in
    let prefix = own_prefix (prop (lit "prefix") opts) in
    if not (is_object opts)
    then refused no_options
    else if not (truthy (prop (lit "client") opts))
    then refused no_connection
    else if not (is_undefined use_hash_tags) && not (is_bool use_hash_tags)
    then refused no_boolean
    else if not (accepts_prefix (is_exactly_true use_hash_tags) prefix)
    then refused no_valid_prefix
    else made (record {
      connection = prop (lit "client") opts;
      use_hash_tags = is_exactly_true use_hash_tags;
      prefix = prefix;
    })

-- `this.mailTimeInstance?.prefix || DEFAULT_PREFIX`, where no prefix was given before.
abbrev pub filled : Text → Text → Text
filled d p = if is_empty p then d else p

unfoldable pub ensure_prefix : Text → Text → Option Text → Text
ensure_prefix d instance_prefix none = filled d instance_prefix
ensure_prefix d instance_prefix (some p) = p

-- The collection of the letters, the `prefix` of their rows, and the start of their keys; `none` is
-- an exception.
unfoldable pub collection_name : Setup → Text → Text
unfolding ensure_prefix
collection_name s instance_prefix =
    lit "__mailTimeQueue__" ++ ensure_prefix [] instance_prefix s.prefix

unfoldable pub row_prefix : Setup → Text → Text
unfolding ensure_prefix
row_prefix s instance_prefix = ensure_prefix (lit "default") instance_prefix s.prefix

unfoldable pub unique_name : Setup → Text → Option Text
unfolding apply_prefix ensure_prefix
unique_name s instance_prefix =
    apply_prefix s.use_hash_tags (ensure_prefix (lit "default") instance_prefix s.prefix)
