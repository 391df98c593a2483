-- ===== src/MailTime/Configure/Usable.antt =====
-- What every instance that the constructor makes can rely on.
use mail_time.Prelude.{
  ◌<◌, ◌≡◌, ◌⊎◌, inl, inr, refl, subst, true, false, List, [], ◌∷◌, Option, none, some, arith,
  Bool-cases, Option-cases, length,
}
use mail_time.Js.Text.{Text, lit, has, text_eq_iff, text_eq_refl}
use mail_time.Js.Value.{Value, Fields, prop}
use mail_time.Task.{Task, is_some}
use mail_time.MailTime.Checks.{
  no_method, queue_methods, missing_method, queue_refusal, server_refusal,
}
use mail_time.MailTime.Options.{side_of, is_object, is_func}
use mail_time.MailTime.State.{Transport, Side, server, client}
use mail_time.MailTime.Configure.{
  Instance, built, refused, refusal, configure, instance_fields, instance_of_options, option,
  is_server_side,
}

-- A server has a transport and a scheduler, the queue has every method, and the instance starts with
-- no letter in flight, neither paused nor destroyed.
pub record IsUsable (i : Instance) : Type 0 where
  pub has_transport : (i.fields.side ≡ client) ⊎ (i.fields.transport < length i.fields.transports)
  pub has_scheduler : is_some i.scheduler ≡ is_server_side i.fields.side
  pub has_methods :
      (name : Text) → has queue_methods name ≡ true → is_func (prop name i.queue) ≡ true
  pub idle :
      (i.fields.in_flight ≡ []) × (i.fields.is_destroyed ≡ false) × (i.fields.is_paused ≡ false)

-- The methods that are found not to be missing are functions.
missing_none :
    (queue : Value) (names : List Text) (name : Text)
    → missing_method queue names ≡ none
    → has names name ≡ true
    → is_func (prop name queue) ≡ true
unfolding missing_method has
missing_none queue [] name e h = cc
missing_none queue (x ∷ names) name e h = elim (Option-cases (missing_method queue names)) [
  | inr (n, f) ↦ absurd (ground (arith, e, f))
  | inl f ↦ ground (arith, e, f, h, missing_none queue names name f, text_eq_iff x name)
]

missing_some :
    (queue : Value) (names : List Text) (name : Text)
    → missing_method queue names ≡ some name
    → (has names name ≡ true) × (is_func (prop name queue) ≡ false)
unfolding missing_method has
missing_some queue [] name e = cc
missing_some queue (x ∷ names) name e = elim (Option-cases (missing_method queue names)) [
  | inr (n, f) ↦ ground (arith, e, f, missing_some queue names n f)
  | inl f ↦ ground (arith, e, f, text_eq_refl x)
]

-- A queue that lacks a method.
lacks_some :
    (queue : Value) (names : List Text) (name : Text)
    → has names name ≡ true
    → is_func (prop name queue) ≡ false
    → (other : Text) × (missing_method queue names ≡ some other)
lacks_some queue names name h f = elim (Option-cases (missing_method queue names)) [
  | inl e ↦ absurd (ground (arith, f, missing_none queue names name e h))
  | inr (n, e) ↦ (n, e)
]

methods_there :
    (queue : Value) (name : Text)
    → queue_refusal queue ≡ none
    → has queue_methods name ≡ true
    → is_func (prop name queue) ≡ true
unfolding queue_refusal
methods_there queue name e h = elim (Option-cases (missing_method queue queue_methods)) [
  | inl f ↦ missing_none queue queue_methods name f h
  | inr (n, f) ↦ absurd (ground (arith, e, f))
]

transports_there :
    (s : Side) (ts : List Transport) (josk : Value)
    → server_refusal s ts josk ≡ none
    → (s ≡ client) ⊎ (0 < length ts)
unfolding server_refusal
transports_there client ts josk e = inl refl
transports_there server [] josk e = cc
transports_there server (t ∷ ts) josk e = inr (omega arith)

module _ (opts : Value) (transports : List Transport)
    (policy : Option (Value → Value → Task → Option Value)) (build : Text → Fields → Value) where
  abbrev opt : Text → Value
  opt name = option opts transports policy name

  usable :
      ((name : Text)
        → has queue_methods name ≡ true
        → is_func (prop name (opt (lit "queue"))) ≡ true)
      → (side_of (opt (lit "type")) ≡ client) ⊎ (0 < length transports)
      → IsUsable (instance_of_options opts transports policy build)
  unfolding instance_of_options instance_fields
  usable methods h = record {
    has_transport = h;
    has_scheduler = ground arith;
    has_methods = methods;
    idle = (refl, refl, refl);
  }

  -- What an instance that is made has passed.
  passed :
      refusal opts transports policy ≡ none
      → (queue_refusal (opt (lit "queue")) ≡ none)
        × (server_refusal (side_of (opt (lit "type"))) transports (opt (lit "josk")) ≡ none)
  unfolding refusal
  passed e = elim (Bool-cases (is_object opts)) [
    | inr f ↦ absurd (ground (arith, e, f))
    | inl f ↦ elim (Option-cases (queue_refusal (opt (lit "queue")))) [
      | inl g ↦ (g, ground (arith, e, f, g))
      | inr (r, g) ↦ absurd (ground (arith, e, f, g))
    ]
  ]

  -- In every instance that the constructor makes, a server's first transport exists and it has a
  -- scheduler, which a client has not, every method that the library calls of the queue is a
  -- function, and no letter is in flight, nor is it paused or destroyed.
  pub configure-IsUsable :
      (i : Instance) → configure opts transports policy build ≡ built i → IsUsable i
  unfolding configure
  configure-IsUsable i e = elim (Option-cases (refusal opts transports policy)) [
    | inr (r, f) ↦ absurd (ground (arith, e, f))
    | inl f ↦
        let (queue, side) = passed f in
        let same : instance_of_options opts transports policy build ≡ i = ground (arith, e, f) in
        subst IsUsable same (
          usable (λ name h. methods_there (opt (lit "queue")) name queue h)
            (transports_there _ transports _ side))
  ]

  -- The constructor refuses options whose queue is an object that lacks one of the methods, and the
  -- error names one of the methods that the queue lacks.
  pub configure_no_method :
      (name : Text)
      → is_object opts ≡ true
      → is_object (opt (lit "queue")) ≡ true
      → has queue_methods name ≡ true
      → is_func (prop name (opt (lit "queue"))) ≡ false
      → (other : Text) × (configure opts transports policy build ≡ refused (no_method other))
        × (has queue_methods other ≡ true)
        × (is_func (prop other (opt (lit "queue"))) ≡ false)
  unfolding configure refusal queue_refusal
  configure_no_method name o oq h f =
      let (other, missing) = lacks_some (opt (lit "queue")) queue_methods name h f in
      let (listed, absent) = missing_some (opt (lit "queue")) queue_methods other missing in
      let a : queue_refusal (opt (lit "queue")) ≡ some (no_method other) =
        ground (arith, oq, missing) in
      let b : refusal opts transports policy ≡ some (no_method other) = ground (arith, o, a) in
      (other, ground (arith, b), listed, absent)
