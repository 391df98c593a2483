-- ===== src/MailTime/Scheduler.antt =====
-- index.js, the constructor: the options of the scheduler (JoSk), which is not of this repository: the
-- adapter that is built for it, the defaults, and the task that it is given. `build` stands for the
-- constructors of the adapters of JoSk, by their `type`.
pub mod Adapter
use mail_time.Prelude.{
  ℕ, Bool, true, false, not, ◌&&◌, ◌||◌, ◌++◌, Option, none, some, if◌then◌else◌, ◌==◌,
}
use mail_time.Js.Text.{Text, lit}
use mail_time.Js.Value.{
  Value, undefined, null, bool, num, str, date, instance_of, func, arr, obj, Fields, end, field,
  get, put, prop,
}
use mail_time.MailTime.Options.{number_or, is_exactly_true, is_func, is_bool, is_text, mode_of}
use mail_time.MailTime.State.{Mode}

-- `{ ...target, ...source }`.
unfoldable pub spread : Fields → Fields → Fields
spread target end = target
spread target (field k v fs) = spread (put k v target) fs

-- The own properties of a value; the elements of an array are left out.
abbrev pub own : Value → Fields
own (obj fs) = fs
own (instance_of n fs) = fs
own _ = end

abbrev pub queue_name : Text → Text
queue_name prefix = lit "mailTimeQueue" ++ prefix

-- `buildAdapterOptions`.
unfoldable pub adapter_options : Text → Value → Fields
unfolding spread
adapter_options prefix josk =
    let options =
      spread (field (lit "prefix") (str (queue_name prefix)) end)
        (own (prop (lit "adapter") josk)) in
    let reset = prop (lit "resetOnInit") josk in
    if is_bool reset && not (is_bool (get (lit "resetOnInit") options))
    then put (lit "resetOnInit") reset options
    else options

-- `onError` is that of the options, or the default that logs. Without a limit, `concurrency` is
-- `none` (`Infinity`). The other options are passed on as they are.
pub record Josk : Type 0 where
  pub adapter : Value
  pub min_revolving_delay : ℕ
  pub max_revolving_delay : ℕ
  pub zombie_time : ℕ
  pub execute : Mode
  pub concurrency : Option ℕ
  pub auto_clear : Bool
  pub logs_errors : Bool
  pub others : Fields

abbrev pub limit_of : Value → Option ℕ
limit_of (num n) = if n == 0 then none else some n
limit_of _ = none

-- What the scheduler is made with: its options, and the task that it repeats.
pub record Schedule : Type 0 where
  pub josk : Josk
  pub interval : ℕ
  pub task : Text

module _ (build : Text → Fields → Value) where
  unfoldable pub josk_adapter : Text → Value → Value
  unfolding adapter_options
  josk_adapter prefix josk =
      let adapter = prop (lit "adapter") josk in
      let kind = prop (lit "type") adapter in
      if is_text kind (lit "mongo")
      then build (lit "mongo") (adapter_options prefix josk)
      else if is_text kind (lit "redis")
      then build (lit "redis") (adapter_options prefix josk)
      else if is_text kind (lit "postgres")
      then build (lit "postgres") (adapter_options prefix josk)
      else adapter

  unfoldable pub josk_options : Text → Value → Josk
  unfolding josk_adapter
  josk_options prefix josk = record {
    adapter = josk_adapter prefix josk;
    min_revolving_delay = number_or 512 (prop (lit "minRevolvingDelay") josk);
    max_revolving_delay = number_or 2048 (prop (lit "maxRevolvingDelay") josk);
    zombie_time = number_or 60000 (prop (lit "zombieTime") josk);
    execute = mode_of (prop (lit "execute") josk);
    concurrency = limit_of (prop (lit "concurrency") josk);
    auto_clear = is_exactly_true (prop (lit "autoClear") josk);
    logs_errors = not (is_func (prop (lit "onError") josk));
    others = own josk;
  }

  unfoldable pub schedule : Text → ℕ → Value → Schedule
  unfolding josk_options
  schedule prefix interval josk = record {
    josk = josk_options prefix josk;
    interval = interval;
    task = queue_name prefix;
  }
