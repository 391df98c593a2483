-- ===== src/Adapters/Redis/Keys/Slots.antt =====
-- The hash tags of the keys of adapters/redis.js. The Redis Cluster specification says that keys with
-- one hash tag, the text between the first `{` and the first `}` after it, are in one slot, which the
-- scripts with several keys need.
use mail_time.Prelude.{
  ℕ, ◌≡◌, refl, sym, ap, ◌∙◌, true, [], ◌∷◌, ◌++◌, Option, none, some, arith, ◌==◌, if◌then◌else◌,
  Bool-cases, inl, inr,
}
use mail_time.Js.Text.{Text, lit}
use mail_time.Adapters.Redis.Keys.{
  TaggedKey, letters, schedule, concat_keys, concat, tagged_suffix, append_cancel, is_prefix_unit,
  all_prefix_units, is_valid_prefix, apply_prefix, tagged_key,
}

-- What comes after the first `c`, and what comes before it.
unfoldable pub after_unit : ℕ → Text → Option Text
after_unit c [] = none
after_unit c (d ∷ s) = if d == c then some s else after_unit c s

unfoldable pub before_unit : ℕ → Text → Option Text
before_unit c [] = none
before_unit c (d ∷ s) =
    if d == c then some [] else (elim (before_unit c s) [ none ↦ none | some t ↦ some (d ∷ t) ])

abbrev pub tag_of : Option Text → Option Text
tag_of none = none
tag_of (some s) = before_unit b'}' s

abbrev pub hash_tag : Text → Option Text
hash_tag key = tag_of (after_unit b'{' key)

before_close :
    (p s : Text) → all_prefix_units p ≡ true → before_unit b'}' ((p ++ lit "}") ++ s) ≡ some p
unfolding before_unit all_prefix_units is_prefix_unit
before_close [] s h = refl
before_close (c ∷ p) s h = ground (arith, before_close p s, h)

tag_of_name : (p n s : Text) → apply_prefix true p ≡ some n → hash_tag (n ++ s) ≡ some p
unfolding apply_prefix after_unit
tag_of_name p n s e = elim (Bool-cases (is_valid_prefix p)) [
  | inr f ↦ absurd (ground (arith, e, f))
  | inl f ↦
      let name : lit "mailtime:{" ++ (p ++ lit "}") ≡ n = ground (arith, e, f) in
      rw (← name) (before_close p s (ground (arith, f)))
]

suffixes_apart : (k k' : TaggedKey) → tagged_suffix k ≡ tagged_suffix k' → k ≡ k'
suffixes_apart letters letters e = refl
suffixes_apart schedule schedule e = refl
suffixes_apart concat_keys concat_keys e = refl
suffixes_apart (concat a) (concat b) e = ap concat (append_cancel (lit ":concatletter:") a b e)
suffixes_apart letters schedule e = absurd (ground arith)
suffixes_apart letters concat_keys e = absurd (ground arith)
suffixes_apart letters (concat b) e = absurd (ground arith)
suffixes_apart schedule letters e = absurd (ground arith)
suffixes_apart schedule concat_keys e = absurd (ground arith)
suffixes_apart schedule (concat b) e = absurd (ground arith)
suffixes_apart concat_keys letters e = absurd (ground arith)
suffixes_apart concat_keys schedule e = absurd (ground arith)
suffixes_apart concat_keys (concat b) e = absurd (ground arith)
suffixes_apart (concat a) letters e = absurd (ground arith)
suffixes_apart (concat a) schedule e = absurd (ground arith)
suffixes_apart (concat a) concat_keys e = absurd (ground arith)

-- With hash tags, under a prefix that `__applyPrefix` accepts, the hash tag of every key of the
-- queue is the prefix: whatever the address that a key is named after, all keys are in one slot of
-- a Redis Cluster.
pub tagged_key-hash_tag :
    (p n : Text) (k : TaggedKey) → apply_prefix true p ≡ some n → hash_tag (tagged_key n k) ≡ some p
tagged_key-hash_tag p n k e = tag_of_name p n (tagged_suffix k) e

-- Queues with hash tags share a key only if they have the same prefix, and then it is the same key.
pub tagged_key_inj :
    (p p' n n' : Text) (k k' : TaggedKey)
    → apply_prefix true p ≡ some n
    → apply_prefix true p' ≡ some n'
    → tagged_key n k ≡ tagged_key n' k'
    → (p ≡ p') × (k ≡ k')
tagged_key_inj p p' n n' k k' e e' same =
    let tags : some p ≡ some p' =
      sym (tag_of_name p n (tagged_suffix k) e)
      ∙ ap hash_tag same
      ∙ tag_of_name p' n' (tagged_suffix k') e' in
    let prefixes : p ≡ p' = cc in
    let names : n ≡ n' = ground (arith, sym e ∙ ap (apply_prefix true) prefixes ∙ e') in
    (
      prefixes,
      suffixes_apart k k'
          (append_cancel n' _ _ (ap (λ x. x ++ tagged_suffix k) (sym names) ∙ same)),
    )
