-- ===== src/Tests/Names.antt =====
-- The names of the keys at concrete inputs.
use mail_time.Prelude.{◌≡◌, refl, true, some}
use mail_time.Js.Text.{Text, lit, text_eq}
use mail_time.Js.Value.{Value, bool, str, obj, end, field, get}
use mail_time.Adapters.Redis.Keys.{
  apply_prefix, tagged_key, schedule, all_prefix_units, is_prefix_unit,
}
use mail_time.Adapters.Redis.Keys.Slots.{hash_tag, tagged_key-hash_tag}
use mail_time.Adapters.Setup.{Setup, made, new_redis_queue, unique_name}
use mail_time.Adapters.Setup.Prefixes.{new_redis_queue-unique_name}

shop_name : apply_prefix true (lit "shop") ≡ some (lit "mailtime:{shop}")
unfolding apply_prefix all_prefix_units is_prefix_unit
shop_name = refl

tagged_key-hash_tag_example :
    hash_tag (tagged_key (lit "mailtime:{shop}") schedule) ≡ some (lit "shop")
tagged_key-hash_tag_example =
    tagged_key-hash_tag (lit "shop") (lit "mailtime:{shop}") schedule shop_name

abbrev shop_options : Value
shop_options = obj (
    field (lit "client") (obj end)
      (field (lit "useHashTags") (bool true) (field (lit "prefix") (str (lit "shop")) end)))

abbrev shop : Setup
shop = record { connection = obj end; use_hash_tags = true; prefix = some (lit "shop") }

shop_constructed : new_redis_queue shop_options ≡ made shop
unfolding new_redis_queue get text_eq apply_prefix all_prefix_units is_prefix_unit
shop_constructed = refl

new_redis_queue-unique_name_example :
    (n : Text) × (unique_name shop (lit "other") ≡ some n)
    × (apply_prefix true (lit "shop") ≡ some n)
new_redis_queue-unique_name_example =
    new_redis_queue-unique_name shop_options shop (lit "shop") (lit "other") shop_constructed refl
