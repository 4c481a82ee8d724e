-- ===== src/AppGraph/Ready.antt =====
-- The entries of `msgMap` in src/utils/buildAppGraph.ts: each sender has its interface.
use c_interface_discovery.Prelude.{
  Text, List, [], ◌∷◌, true, not, ◌&&◌, ===_refl, All, All-append, All-mono, ◌≡◌, Bool-cases,
  Option-cases, inl, inr, arith, if◌then◌else◌,
}
use c_interface_discovery.Prelude.Dict.{
  Dict, get, set, has, has-set, AllEntries, AllEntries-set, AllEntries-get,
}
use c_interface_discovery.Graph.{MessageInterface, includes_text}
use c_interface_discovery.Graph.Names.{IsPlainName}
use c_interface_discovery.AppGraph.Senders.{
  Analyzed, MsgEntry, empty_entry, app_produces, app_consumes, note_producer, note_consumer,
  note_confident, entry_or_empty, add_message, add_messages, msg_map,
}

-- Every sender has an interface, and no name holds an arrow.
pub record IsReady (m : Text) (e : MsgEntry) : Type 0 where
  pub interfaces : All (λ id. has e.interfaces id ≡ true) e.producers
  pub plain_producers : All IsPlainName e.producers
  pub plain_consumers : All IsPlainName e.consumers

has-set_mono :
    (d : Dict MessageInterface) (k y : Text) (i : MessageInterface)
    → has d y ≡ true
    → has (set d k i) y ≡ true
has-set_mono d k y i h = ground (arith, has-set d k y i)

has-set_same :
    (d : Dict MessageInterface) (k : Text) (i : MessageInterface) → has (set d k i) k ≡ true
has-set_same d k i = ground (arith, has-set d k k i, ===_refl k)

module _ (m id : Text) (msg : MessageInterface) (plain : IsPlainName id) where
  note_producer-IsReady : (e : MsgEntry) → IsReady m e → IsReady m (note_producer id msg e)
  unfolding note_producer
  note_producer-IsReady e r =
      elim (Bool-cases (app_produces msg && not (includes_text e.producers id))) [
        | inr p ↦ rw (p, note_producer) r
        | inl p ↦
            rw (p, note_producer)
              (record {
                interfaces =
                    All-append _ e.producers (id ∷ [])
                      (All-mono (λ y. has-set_mono e.interfaces id y msg) e.producers r.interfaces)
                      (has-set_same e.interfaces id msg, tt);
                plain_producers = All-append _ e.producers (id ∷ []) r.plain_producers (plain, tt);
                plain_consumers = r.plain_consumers;
              })
      ]

  note_consumer-IsReady : (e : MsgEntry) → IsReady m e → IsReady m (note_consumer id msg e)
  unfolding note_consumer
  note_consumer-IsReady e r =
      elim (Bool-cases (app_consumes msg && not (includes_text e.consumers id))) [
        | inr p ↦ rw (p, note_consumer) r
        | inl p ↦
            rw (p, note_consumer)
              (record {
                interfaces = All-mono (λ y. grown y) e.producers r.interfaces;
                plain_producers = r.plain_producers;
                plain_consumers = All-append _ e.consumers (id ∷ []) r.plain_consumers (plain, tt);
              })
      ]
    where
      grown :
          (y : Text)
          → has e.interfaces y ≡ true
          → has (if has e.interfaces id then e.interfaces else set e.interfaces id msg) y ≡ true
      grown y h = elim (Bool-cases (has e.interfaces id)) [
        | inl p ↦ rw p h
        | inr p ↦ rw p (has-set_mono e.interfaces id y msg h)
      ]

  note_confident-IsReady : (e : MsgEntry) → IsReady m e → IsReady m (note_confident msg e)
  unfolding note_confident
  note_confident-IsReady e r = elim (Bool-cases msg.direction_confident) [
    | inr p ↦ rw (p, note_confident) r
    | inl p ↦
        rw (p, note_confident)
          (record {
            interfaces = r.interfaces;
            plain_producers = r.plain_producers;
            plain_consumers = r.plain_consumers;
          })
  ]

entry_or_empty-IsReady :
    (d : Dict MsgEntry) (m : Text) → AllEntries IsReady d → IsReady m (entry_or_empty (get d m))
unfolding entry_or_empty empty_entry
entry_or_empty-IsReady d m h = elim (Option-cases (get d m)) [
  | inl f ↦ rw f (record { interfaces = tt; plain_producers = tt; plain_consumers = tt })
  | inr (e, f) ↦ rw f (AllEntries-get IsReady d m e h f)
]

add_message-IsReady :
    (id : Text) (msg : MessageInterface) (d : Dict MsgEntry)
    → IsPlainName id
    → AllEntries IsReady d
    → AllEntries IsReady (add_message id msg d)
unfolding add_message
add_message-IsReady id msg d plain h =
    let m = msg.msg_type_constant in
    AllEntries-set IsReady d m _
      (note_confident-IsReady m id msg plain _ (
        note_consumer-IsReady m id msg plain _
          (note_producer-IsReady m id msg plain _ (entry_or_empty-IsReady d m h))))
      h

add_messages-IsReady :
    (id : Text) (msgs : List MessageInterface) (d : Dict MsgEntry)
    → IsPlainName id
    → AllEntries IsReady d
    → AllEntries IsReady (add_messages id msgs d)
unfolding add_messages
add_messages-IsReady id [] d plain h = h
add_messages-IsReady id (msg ∷ msgs) d plain h =
    add_messages-IsReady id msgs _ plain (add_message-IsReady id msg d plain h)

pub msg_map-IsReady :
    (groups : List Analyzed) (d : Dict MsgEntry)
    → All (λ g. IsPlainName g.id) groups
    → AllEntries IsReady d
    → AllEntries IsReady (msg_map groups d)
unfolding msg_map
msg_map-IsReady [] d plain h = h
msg_map-IsReady (g ∷ groups) d (p, plain) h =
    msg_map-IsReady groups _ plain (add_messages-IsReady g.id g.messages d p h)
