-- ===== src/Codemodel/Objects.antt =====
-- codemodel/types.ts: the objects that types refer to. The heap gives the object of each reference;
-- references of the source's objects never dangle.
use typespec_rust.Prelude.{ℕ, Text, Bool, Option, List}
use typespec_rust.Codemodel.Kinds.{
  ModelId, EnumId, UnionId, StructId, Docs, Visibility, Lifetime, EnumType, EnumValue, XmlKind,
}
use typespec_rust.Codemodel.Types.{RustType}
use typespec_rust.Codemodel.Crate.{ModuleContainer}

pub record Enum : Type 0 where
  pub name : Text
  pub docs : Docs
  pub visibility : Visibility
  pub values : List EnumValue
  pub extensible : Bool
  pub type : EnumType
  pub container : ModuleContainer

-- `DiscriminatedUnion | Model`
pub data MemberType : Type 0 where
  discriminated_union : UnionId → MemberType
  model : ModelId → MemberType

pub record DiscriminatedUnionMember : Type 0 where
  pub docs : Docs
  pub type : MemberType
  pub discriminant_value : Text

pub data DiscriminatedUnionKind : Type 0 where
  based : ModelId → DiscriminatedUnionKind
  envelope : Text → DiscriminatedUnionKind
  sealed : DiscriminatedUnionKind

pub record DiscriminatedUnion : Type 0 where
  pub name : Text
  pub docs : Docs
  pub visibility : Visibility
  pub members : List DiscriminatedUnionMember
  pub discriminant : Text
  pub union_kind : Option DiscriminatedUnionKind
  pub container : ModuleContainer

pub record UntaggedUnionVariant : Type 0 where
  pub name : Text
  pub docs : Docs
  pub type : RustType

pub record UntaggedUnion : Type 0 where
  pub name : Text
  pub docs : Docs
  pub visibility : Visibility
  pub variants : List UntaggedUnionVariant
  pub container : ModuleContainer

-- The base of the fields of models and structs.
pub record StructField : Type 0 where
  pub name : Text
  pub docs : Docs
  pub visibility : Visibility
  pub type : RustType
  pub default_value : Option Text
  pub default_value_constant : Option (Text × Text)

-- codemodel/customizations.ts
pub data ModelFieldCustomizations : Type 0 where
  deserialize_with : Text → ModelFieldCustomizations

-- `ModelFieldFlags`, bits of a number
abbrev pub page_items : ℕ
page_items = 1

-- `ModelFlags.Error`
abbrev pub error_flag : ℕ
error_flag = 8

pub record ModelField : Type 0 where
  pub base : StructField
  pub serde : Text
  pub flags : ℕ
  pub optional : Bool
  pub customizations : List ModelFieldCustomizations
  pub xml_kind : Option XmlKind

pub data ModelFieldType : Type 0 where
  model_field : ModelField → ModelFieldType
  additional_properties : StructField → ModelFieldType

unfoldable pub field_base : ModelFieldType → StructField
field_base (model_field f) = f.base
field_base (additional_properties f) = f

pub record Model : Type 0 where
  pub name : Text
  pub docs : Docs
  pub visibility : Visibility
  pub lifetime : Option Lifetime
  pub fields : List ModelFieldType
  pub flags : ℕ
  pub container : ModuleContainer
  pub xml_name : Option Text

pub record Struct : Type 0 where
  pub name : Text
  pub docs : Docs
  pub visibility : Visibility
  pub lifetime : Option Lifetime
  pub fields : List StructField

pub record Heap : Type 0 where
  pub models : ModelId → Model
  pub enums : EnumId → Enum
  pub unions : UnionId → DiscriminatedUnion
  pub untagged_unions : UnionId → UntaggedUnion
  pub structs : StructId → Struct
