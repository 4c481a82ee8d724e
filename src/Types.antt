-- ===== src/Types.antt =====
-- src/analyzer/types.ts: the records that the analyzer's passes exchange.
use c_interface_discovery.Prelude.{ℕ, Text, List, Option, Bool}
use c_interface_discovery.Prelude.Dict.{Dict}
use c_interface_discovery.Pack.Resolve.{PackSource}

pub data FileRole : Type 0 where
  source string_header external_header : FileRole

pub data FileZone : Type 0 where
  string external : FileZone

pub data Encoding : Type 0 where
  utf_8 latin_1 : Encoding

pub record LoadedFile : Type 0 where
  pub filename : Text
  pub content : Text
  pub zone : FileZone
  pub encoding : Encoding
  pub size_bytes : ℕ
  pub oversized : Bool
  pub rejected : Bool
  pub rejection_reason : Option Text

pub record FileRegistryEntry : Type 0 where
  pub file : LoadedFile
  pub shadowed_by : Option Text

pub data WarningKind : Type 0 where
  collision conflict encoding oversized circular_include ifdef_variant : WarningKind

pub record AnalysisWarning : Type 0 where
  pub kind : WarningKind
  pub message : Text
  pub files : List Text

pub record CField : Type 0 where
  pub type : Text
  pub name : Text

-- Without `variants` and `conflictsWith`, which no modelled pass reads.
pub record CStruct : Type 0 where
  pub name : Text
  pub fields : List CField
  pub source_file : Text
  pub conditional : Bool
  pub pack_attribute : Option ℕ
  pub pack_source : Option PackSource

-- Without `variants` and `conflictsWith`.
pub record CEnum : Type 0 where
  pub name : Text
  pub values : List Text
  pub source_file : Text
  pub conditional : Bool

-- A dictionary without its `defines`, which no modelled pass reads.
pub record TypeDict : Type 0 where
  pub structs : List CStruct
  pub enums : List CEnum
  pub typedef_aliases : Option (Dict Text)
