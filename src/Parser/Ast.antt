-- ===== src/Parser/Ast.antt =====
-- include/maxql/parser/ast.h, parser.h and schema_parser.h, with the enumerations of
-- include/maxql/types.h that they use. The growing arrays are lists.
use maxql.Prelude.{List, Bool, []}
use maxql.Core.StrView.{StrView}

pub data LiteralType : Type 0 where
  lit_number lit_string lit_hex : LiteralType

pub data ConditionOp : Type 0 where
  op_unknown op_equals op_not_equals op_less op_less_or_equal op_greater op_great_or_equal :
      ConditionOp

abbrev pub Ident : Type 0
Ident = StrView

pub record RawValue : Type 0 where
  pub type : LiteralType
  pub value : StrView

pub record Assignment : Type 0 where
  pub column : Ident
  pub value : RawValue

pub record Condition : Type 0 where
  pub column : Ident
  pub op : ConditionOp
  pub value : RawValue

pub record ColumnTypeDef : Type 0 where
  pub name : Ident
  pub len : StrView
  pub has_len : Bool

pub record ColumnDef : Type 0 where
  pub column : Ident
  pub type : ColumnTypeDef
  pub has_default : Bool
  pub default_value : RawValue

pub record IndexKeyPart : Type 0 where
  pub column : Ident
  pub key_len : Ident
  pub has_key_len : Bool

pub record SelectStmt : Type 0 where
  pub columns : List Ident
  pub table : Ident
  pub ignore_index : Bool
  pub where_list : List Condition

pub record InsertStmt : Type 0 where
  pub table : Ident
  pub assignments : List Assignment

pub record DeleteStmt : Type 0 where
  pub table : Ident
  pub where_list : List Condition

pub record UpdateStmt : Type 0 where
  pub table : Ident
  pub assignments : List Assignment
  pub where_list : List Condition

pub record CreateTableStmt : Type 0 where
  pub table : Ident
  pub column_defs : List ColumnDef

pub record DropTableStmt : Type 0 where
  pub table : Ident

pub record CreateIndexStmt : Type 0 where
  pub is_unique : Bool
  pub name : Ident
  pub type : Ident
  pub table : Ident
  pub key_parts : List IndexKeyPart

pub record ShowTableStmt : Type 0 where
  pub table : Ident

pub record ShowIndexStmt : Type 0 where
  pub table : Ident

pub record DropIndexStmt : Type 0 where
  pub table : Ident
  pub index : Ident

pub record TruncateTableStmt : Type 0 where
  pub table : Ident

-- `ParseResult`: the query type with its member of the union.
pub data ParseResult : Type 0 where
  query_unknown : ParseResult
  query_create_table : CreateTableStmt → ParseResult
  query_drop_table : DropTableStmt → ParseResult
  query_create_index : CreateIndexStmt → ParseResult
  query_drop_index : DropIndexStmt → ParseResult
  query_truncate_table : TruncateTableStmt → ParseResult
  query_select : SelectStmt → ParseResult
  query_delete : DeleteStmt → ParseResult
  query_insert : InsertStmt → ParseResult
  query_update : UpdateStmt → ParseResult
  query_show_tables : ParseResult
  query_show_table : ShowTableStmt → ParseResult
  query_show_index : ShowIndexStmt → ParseResult
  query_show_index_types : ParseResult

pub record IndexDef : Type 0 where
  pub type : Ident
  pub is_unique : Bool
  pub name : Ident
  pub key_parts : List IndexKeyPart

pub record SchemaParseResult : Type 0 where
  pub column_defs : List ColumnDef
  pub index_defs : List IndexDef

-- A view that a C initialiser sets to 0.
abbrev pub no_view : StrView
no_view = record { ptr = []; len = 0 }

abbrev pub no_value : RawValue
no_value = record { type = lit_number; value = no_view }
