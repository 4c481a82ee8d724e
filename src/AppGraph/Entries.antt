-- ===== src/AppGraph/Entries.antt =====
-- Who sends and who receives a message, by the analyses, and `msgMap` of src/utils/buildAppGraph.ts.
use c_interface_discovery.Prelude.{
  Text, List, [], ◌∷◌, ◌++◌, Bool, true, false, not, ◌&&◌, ◌||◌, ◌===◌, ===_iff, ◌≡◌, refl, ap,
  subst, ◌∙◌, Bool-cases, inl, inr, arith, if◌then◌else◌,
}
use c_interface_discovery.Prelude.Dict.{Dict, get, get-set}
use c_interface_discovery.Graph.{MessageInterface, includes_text}
use c_interface_discovery.Graph.Members.{includes_text-append}
use c_interface_discovery.AppGraph.Senders.{
  Analyzed, MsgEntry, empty_entry, app_produces, app_consumes, note_producer, note_consumer,
  note_confident, entry_or_empty, add_message, add_messages, msg_map,
}

-- A message with this constant has a role that passes the test in the application.
abbrev pub any_role : (MessageInterface → Bool) → List MessageInterface → Text → Bool
any_role test [] m = false
any_role test (msg ∷ msgs) m = (test msg && msg.msg_type_constant === m) || any_role test msgs m

abbrev pub any_app : (MessageInterface → Bool) → List Analyzed → Text → Text → Bool
any_app test [] m id = false
any_app test (g ∷ groups) m id =
    (any_role test g.messages m && g.id === id) || any_app test groups m id

-- The application sends, or receives, the message.
abbrev pub sends : List Analyzed → Text → Text → Bool
sends groups m id = any_app app_produces groups m id

abbrev pub receives : List Analyzed → Text → Text → Bool
receives groups m id = any_app app_consumes groups m id

abbrev pub entry_at : Dict MsgEntry → Text → MsgEntry
entry_at d m = entry_or_empty (get d m)

includes-last :
    (xs : List Text) (x y : Text) → includes_text (xs ++ x ∷ []) y ≡ (includes_text xs y || x === y)
unfolding includes_text
includes-last xs x y = ground (arith, includes_text-append xs (x ∷ []) y)

already :
    (xs : List Text) (x y : Text)
    → includes_text xs x ≡ true
    → (x === y) ≡ true
    → includes_text xs y ≡ true
already xs x y h e = subst (λ z. includes_text xs z ≡ true) ((===_iff x y).0 e) h

note_producer-producers :
    (id y : Text) (msg : MessageInterface) (e : MsgEntry)
    → includes_text (note_producer id msg e).producers y
      ≡ (includes_text e.producers y || (app_produces msg && id === y))
unfolding note_producer
note_producer-producers id y msg e = elim (Bool-cases (app_produces msg)) [
  | inr p ↦ rw (p, note_producer) (ground arith)
  | inl p ↦ elim (Bool-cases (includes_text e.producers id)) [
    | inr i ↦ rw (p, i, note_producer) (includes-last e.producers id y)
    | inl i ↦ elim (Bool-cases (id === y)) [
      | inr n ↦ rw (p, i, n, note_producer) (ground arith)
      | inl s ↦
          let a = already e.producers id y i s in rw (p, i, s, note_producer) (ground (arith, a))
    ]
  ]
]

note_consumer-consumers :
    (id y : Text) (msg : MessageInterface) (e : MsgEntry)
    → includes_text (note_consumer id msg e).consumers y
      ≡ (includes_text e.consumers y || (app_consumes msg && id === y))
unfolding note_consumer
note_consumer-consumers id y msg e = elim (Bool-cases (app_consumes msg)) [
  | inr p ↦ rw (p, note_consumer) (ground arith)
  | inl p ↦ elim (Bool-cases (includes_text e.consumers id)) [
    | inr i ↦ rw (p, i, note_consumer) (includes-last e.consumers id y)
    | inl i ↦ elim (Bool-cases (id === y)) [
      | inr n ↦ rw (p, i, n, note_consumer) (ground arith)
      | inl s ↦
          let a = already e.consumers id y i s in rw (p, i, s, note_consumer) (ground (arith, a))
    ]
  ]
]

-- What the one note does not touch.
note_consumer-producers :
    (id : Text) (msg : MessageInterface) (e : MsgEntry)
    → (note_consumer id msg e).producers ≡ e.producers
unfolding note_consumer
note_consumer-producers id msg e =
    elim (Bool-cases (app_consumes msg && not (includes_text e.consumers id))) [
      | inl p ↦ rw (p, note_consumer) refl
      | inr p ↦ rw (p, note_consumer) refl
    ]

note_producer-consumers :
    (id : Text) (msg : MessageInterface) (e : MsgEntry)
    → (note_producer id msg e).consumers ≡ e.consumers
unfolding note_producer
note_producer-consumers id msg e =
    elim (Bool-cases (app_produces msg && not (includes_text e.producers id))) [
      | inl p ↦ rw (p, note_producer) refl
      | inr p ↦ rw (p, note_producer) refl
    ]

note_confident_keeps :
    (msg : MessageInterface) (e : MsgEntry)
    → ((note_confident msg e).producers ≡ e.producers)
      × (((note_confident msg e).consumers ≡ e.consumers)
          × ((note_confident msg e).interfaces ≡ e.interfaces))
unfolding note_confident
note_confident_keeps msg e = elim (Bool-cases msg.direction_confident) [
  | inl p ↦ rw (p, note_confident) (refl, (refl, refl))
  | inr p ↦ rw (p, note_confident) (refl, (refl, refl))
]

abbrev noted : Text → MessageInterface → MsgEntry → MsgEntry
noted id msg e = note_confident msg (note_consumer id msg (note_producer id msg e))

noted-producers :
    (id y : Text) (msg : MessageInterface) (e : MsgEntry)
    → includes_text (noted id msg e).producers y
      ≡ (includes_text e.producers y || (app_produces msg && id === y))
noted-producers id y msg e =
    rw
      (
        (note_confident_keeps msg (note_consumer id msg (note_producer id msg e))).0,
        note_consumer-producers id msg (note_producer id msg e),
      )
      (note_producer-producers id y msg e)

noted-consumers :
    (id y : Text) (msg : MessageInterface) (e : MsgEntry)
    → includes_text (noted id msg e).consumers y
      ≡ (includes_text e.consumers y || (app_consumes msg && id === y))
noted-consumers id y msg e =
    rw ((note_confident_keeps msg (note_consumer id msg (note_producer id msg e))).1.0) (
      note_consumer-consumers id y msg (note_producer id msg e)
      ∙ ap (λ xs. includes_text xs y || (app_consumes msg && id === y))
          (note_producer-consumers id msg e))

entry_at-add_message :
    (id m : Text) (msg : MessageInterface) (d : Dict MsgEntry)
    → entry_at (add_message id msg d) m
      ≡ (if msg.msg_type_constant === m then noted id msg (entry_at d m) else entry_at d m)
unfolding add_message entry_or_empty
entry_at-add_message id m msg d = elim (Bool-cases (msg.msg_type_constant === m)) [
  | inl e ↦
      rw (get-set d msg.msg_type_constant m (noted id msg (entry_at d msg.msg_type_constant)), e)
        (ap (λ k. noted id msg (entry_at d k)) ((===_iff _ m).0 e))
  | inr e ↦
      rw (get-set d msg.msg_type_constant m (noted id msg (entry_at d msg.msg_type_constant)), e)
        refl
]

module _ (test : MessageInterface → Bool) (ids : MsgEntry → List Text)
    (noted-ids : (id y : Text) (msg : MessageInterface) (e : MsgEntry)
      → includes_text (ids (noted id msg e)) y
        ≡ (includes_text (ids e) y || (test msg && id === y))) where
  add_message-ids :
      (id m y : Text) (msg : MessageInterface) (d : Dict MsgEntry)
      → includes_text (ids (entry_at (add_message id msg d) m)) y ≡ (
          includes_text (ids (entry_at d m)) y
          || ((test msg && msg.msg_type_constant === m) && id === y))
  add_message-ids id m y msg d = elim (Bool-cases (msg.msg_type_constant === m)) [
    | inl e ↦
        rw (entry_at-add_message id m msg d, e) (ground (arith, noted-ids id y msg (entry_at d m)))
    | inr e ↦ rw (entry_at-add_message id m msg d, e) (ground arith)
  ]

  add_messages-ids :
      (id m y : Text) (msgs : List MessageInterface) (d : Dict MsgEntry)
      → includes_text (ids (entry_at (add_messages id msgs d) m)) y
        ≡ (includes_text (ids (entry_at d m)) y || (any_role test msgs m && id === y))
  unfolding add_messages
  add_messages-ids id m y [] d = ground arith
  add_messages-ids id m y (msg ∷ msgs) d =
      ground
        (arith, add_messages-ids id m y msgs (add_message id msg d), add_message-ids id m y msg d)

  msg_map-ids :
      (m y : Text) (groups : List Analyzed) (d : Dict MsgEntry)
      → includes_text (ids (entry_at (msg_map groups d) m)) y
        ≡ (includes_text (ids (entry_at d m)) y || any_app test groups m y)
  unfolding msg_map
  msg_map-ids m y [] d = ground arith
  msg_map-ids m y (g ∷ groups) d = ground (
    arith,
    msg_map-ids m y groups (add_messages g.id g.messages d),
    add_messages-ids g.id m y g.messages d,
  )

pub msg_map-sends :
    (groups : List Analyzed) (m id : Text)
    → includes_text (entry_at (msg_map groups []) m).producers id ≡ sends groups m id
unfolding get empty_entry includes_text entry_or_empty
msg_map-sends groups m id =
    msg_map-ids app_produces (λ e. e.producers) noted-producers m id groups []

pub msg_map-receives :
    (groups : List Analyzed) (m id : Text)
    → includes_text (entry_at (msg_map groups []) m).consumers id ≡ receives groups m id
unfolding get empty_entry includes_text entry_or_empty
msg_map-receives groups m id =
    msg_map-ids app_consumes (λ e. e.consumers) noted-consumers m id groups []
