-- ===== src/AppGraph/Senders.antt =====
-- `msgMap` of src/utils/buildAppGraph.ts: which applications send and receive a message.
use c_interface_discovery.Prelude.{
  Text, List, [], ◌∷◌, ◌++◌, Option, none, some, Bool, true, false, not, ◌&&◌, any, if◌then◌else◌,
}
use c_interface_discovery.Prelude.Dict
use c_interface_discovery.Prelude.Dict.{Dict}
use c_interface_discovery.Graph.{MessageInterface, includes_text, is_producer, is_consumer}

-- A group with an analysis: its identifier and its messages.
pub record Analyzed : Type 0 where
  pub id : Text
  pub messages : List MessageInterface

-- Which applications send and receive a message.
pub record MsgEntry : Type 0 where
  pub producers : List Text
  pub consumers : List Text
  pub interfaces : Dict MessageInterface
  pub confident : Bool

unfoldable pub empty_entry : MsgEntry
empty_entry = record { producers = []; consumers = []; interfaces = []; confident = false }

unfoldable pub app_produces : MessageInterface → Bool
app_produces msg = any (λ r. is_producer r.role) msg.file_roles

unfoldable pub app_consumes : MessageInterface → Bool
app_consumes msg = any (λ r. is_consumer r.role) msg.file_roles

unfoldable pub note_producer : Text → MessageInterface → MsgEntry → MsgEntry
note_producer id msg e =
    if app_produces msg && not (includes_text e.producers id)
    then record e { producers = e.producers ++ id ∷ []; interfaces = Dict.set e.interfaces id msg }
    else e

unfoldable pub note_consumer : Text → MessageInterface → MsgEntry → MsgEntry
note_consumer id msg e =
    if app_consumes msg && not (includes_text e.consumers id)
    then record e {
      consumers = e.consumers ++ id ∷ [];
      interfaces = if Dict.has e.interfaces id then e.interfaces else Dict.set e.interfaces id msg;
    }
    else e

unfoldable pub note_confident : MessageInterface → MsgEntry → MsgEntry
note_confident msg e = if msg.direction_confident then record e { confident = true } else e

unfoldable pub entry_or_empty : Option MsgEntry → MsgEntry
entry_or_empty none = empty_entry
entry_or_empty (some e) = e

-- One round of the inner loop.
unfoldable pub add_message : Text → MessageInterface → Dict MsgEntry → Dict MsgEntry
add_message id msg entries = Dict.set entries msg.msg_type_constant (
    note_confident msg (
      note_consumer id msg
        (note_producer id msg (entry_or_empty (Dict.get entries msg.msg_type_constant)))))

unfoldable pub add_messages : Text → List MessageInterface → Dict MsgEntry → Dict MsgEntry
add_messages id [] entries = entries
add_messages id (msg ∷ msgs) entries = add_messages id msgs (add_message id msg entries)

unfoldable pub msg_map : List Analyzed → Dict MsgEntry → Dict MsgEntry
msg_map [] entries = entries
msg_map (g ∷ groups) entries = msg_map groups (add_messages g.id g.messages entries)
