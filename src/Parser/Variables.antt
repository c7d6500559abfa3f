-- ===== src/Parser/Variables.antt =====
-- What the parser reads of Slither's variables: their class, the attributes it tests, and their type.
-- A variable is a number, and its description a parameter of the operations. A missing attribute is
-- none. A constant's type is that of `_record_constant`.
use contract_abstract.Prelude.{ℕ, Text, Bool, Option, List}

-- the classes in the order that `_deal_with_read` tests them in
pub data Class : Type 0 where
  solidity_composed state_variable local_variable constant contract solidity : Class
  enum_contract temporary reference tuple other_class : Class

pub data TypeKind : Type 0 where
  elementary_type : TypeKind
  -- of a structure, by the names of its fields
  structure_type : List Text → TypeKind
  contract_type : TypeKind
  other_user_type : TypeKind
  other_type : TypeKind

pub data ConstantType : Type 0 where
  -- its name and the signatures of its functions
  contract_constant : Text → List Text → ConstantType
  elementary_constant : Text → ℕ → ConstantType
  other_constant : ConstantType

pub record ConstantInfo : Type 0 where
  pub contract_name : Text
  pub constant_name : Text
  pub constant_type : ConstantType
  pub constant_value : Option Text

pub record IrVariable : Type 0 where
  pub name : Text
  pub class : Class
  -- immutable or constant
  pub is_fixed : Bool
  pub location : Option Text
  pub is_stored : Bool
  pub kind : TypeKind
  pub points_to : Option ℕ
  pub points_to_origin : Option ℕ
  -- of a tuple: the number of its types
  pub width : ℕ
  pub constant_info : ConstantInfo
