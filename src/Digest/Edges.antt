-- ===== src/Digest/Edges.antt =====
-- `crossAppEdges` of src/llm/tools.ts: which application sends what to which.
use c_interface_discovery.Prelude.{
  Text, List, [], ◌∷◌, ◌++◌, map, keep, any, Option, none, some, Bool, false, not, ◌&&◌, ◌||◌, ◌==◌,
  ◌===◌, length, text_before, if◌then◌else◌,
}
use c_interface_discovery.Prelude.Dict.{Dict, set}
use c_interface_discovery.Graph.{is_producer, is_consumer, includes_text, push_new, push_all}
use c_interface_discovery.Roles.Containment.{list_at}
use c_interface_discovery.Roles.Report.{sort_by}
use c_interface_discovery.Digest.Rows.{Message, ScopedApp}

-- There are no `transit_apps` where the code leaves them out.
pub record CrossAppEdge : Type 0 where
  pub constant : Text
  pub producers : List Text
  pub consumers : List Text
  pub transit_apps : List Text
  pub unmatched : Bool

unfoldable pub add_app : Text → Text → Dict (List Text) → Dict (List Text)
add_app key name d = set d key (push_new (list_at d key) name)

-- `constant && m.msgTypeConstant !== constant`
unfoldable pub is_other : Option Text → Message → Bool
is_other none m = false
is_other (some []) m = false
is_other (some (c ∷ cs)) m = not (m.constant === c ∷ cs)

unfoldable pub produces : Message → Bool
produces m = any (λ r. is_producer r.role) m.file_roles

unfoldable pub consumes : Message → Bool
consumes m = any (λ r. is_consumer r.role) m.file_roles

-- The applications with a file that has a role for a message, by the message.
unfoldable pub apps_of_messages :
    (Message → Bool) → Text → List Message → Dict (List Text) → Dict (List Text)
apps_of_messages takes_part name [] d = d
apps_of_messages takes_part name (m ∷ ms) d =
    apps_of_messages takes_part name ms (if takes_part m then add_app m.constant name d else d)

unfoldable pub apps_of : (Message → Bool) → List ScopedApp → Dict (List Text) → Dict (List Text)
apps_of takes_part [] d = d
apps_of takes_part (a ∷ apps) d =
    apps_of takes_part apps (apps_of_messages takes_part a.name a.analysis.messages d)

unfoldable pub edge_of : Dict (List Text) → Dict (List Text) → Text → CrossAppEdge
edge_of producers_of consumers_of c =
    let producers = sort_by text_before (list_at producers_of c) in
    let consumers = sort_by text_before (list_at consumers_of c) in
    record {
      constant = c;
      producers = producers;
      consumers = consumers;
      transit_apps = keep (includes_text consumers) producers;
      unmatched = length producers == 0 || length consumers == 0;
    }

unfoldable pub cross_app_edges : List ScopedApp → Option Text → List CrossAppEdge
cross_app_edges apps constant =
    let producers_of = apps_of (λ m. not (is_other constant m) && produces m) apps [] in
    let consumers_of = apps_of (λ m. not (is_other constant m) && consumes m) apps [] in
    map (edge_of producers_of consumers_of) (
      sort_by text_before
        (push_all [] (map (λ e. e.0) producers_of ++ map (λ e. e.0) consumers_of)))
