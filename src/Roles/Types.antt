-- ===== src/Roles/Types.antt =====
-- The types of src/analyzer/structRoleAnalyzer.ts, and what it reads of the messages and payloads.
use c_interface_discovery.Prelude.{ℕ, Text, List, Option, Bool}
use c_interface_discovery.Prelude.Dict.{Dict}
use c_interface_discovery.Types.{TypeDict}

pub data StructRole : Type 0 where
  wire_root wire_root_nested envelope root_candidate shared_block block orphan : StructRole

pub record ContainmentEdge : Type 0 where
  pub parent : Text
  pub is_first_field : Bool
  pub array_length : Option ℕ
  pub field_name : Text

pub record StructRoleInfo : Type 0 where
  pub name : Text
  pub source_file : Text
  pub role : StructRole
  pub in_degree : ℕ
  pub contained_by : List ContainmentEdge
  pub contains : List Text
  pub depth : ℕ
  pub field_count : ℕ
  pub bound_constants : List Text
  pub pointer_fields : List Text
  pub variable_array_fields : List Text

pub record StructRoleReport : Type 0 where
  pub roles : List StructRoleInfo
  pub by_name : Dict StructRoleInfo
  pub wire_roots : List Text
  pub envelopes : List Text

-- A message, with the name of its struct where it was resolved.
pub record BoundMessage : Type 0 where
  pub constant : Text
  pub struct_name : Option Text

pub data Confidence : Type 0 where
  high medium low unresolved : Confidence

-- A payload resolution, with `resolvedStruct?.name ?? resolvedStructName`.
pub record PayloadResolution : Type 0 where
  pub confidence : Confidence
  pub struct_name : Option Text
  pub msg_id_constant : Option Text

pub record StructRoleInput : Type 0 where
  pub type_dict : TypeDict
  pub messages : List BoundMessage
  pub payload_resolutions : List PayloadResolution
  pub referenced_in_source : List Text
