-- ===== src/Ast.antt =====
-- include/proto2/ast.h: the syntax tree of a SELECT statement.
-- `ASTExpr` is a struct with a kind tag and the fields of every kind; its factories (`columnRef`,
-- `intLiteral`, `stringLiteral`, `binary`, `notExpr`) set the fields of one kind, and these are the
-- constructors here. `ASTExprKind` splits as the switches on it do: six comparisons, two connectives.
pub mod Print
use hega_proto.Base.{Bool, true, false, List, Option, Str}
use hega_proto.Base.Int.{ℤ}

pub data Comparison : Type 0 where
  equal not_equal greater_than less_than greater_equal less_equal : Comparison

pub data Connective : Type 0 where
  and_ or_ : Connective

pub data AstExpr : Type 0 where
  column_ref : Str → AstExpr
  int_literal : ℤ → AstExpr
  string_literal : Str → AstExpr
  comparison : Comparison → AstExpr → AstExpr → AstExpr
  connective : Connective → AstExpr → AstExpr → AstExpr
  not_expr : AstExpr → AstExpr

pub data SortDirection : Type 0 where
  ascending descending : SortDirection

pub record OrderByColumn : Type 0 where
  pub column_name : Str
  pub direction : SortDirection

pub record TableRef : Type 0 where
  pub table_name : Str
  pub alias : Str

pub record JoinClause : Type 0 where
  pub right_table : TableRef
  pub condition : AstExpr

-- `limit_count` is `limitCount`, and `whereClause == nullptr` is `none`.
pub record SelectStatement : Type 0 where
  pub projections : List Str
  pub table_name : Str
  pub table_alias : Str
  pub joins : List JoinClause
  pub where_clause : Option AstExpr
  pub order_by_columns : List OrderByColumn
  pub limit_count : ℤ

-- `e.kind == ASTExprKind::ColumnRef`, and so on
abbrev pub is_column : AstExpr → Bool
is_column (column_ref _) = true
is_column _ = false

abbrev pub is_int : AstExpr → Bool
is_int (int_literal _) = true
is_int _ = false

abbrev pub is_string : AstExpr → Bool
is_string (string_literal _) = true
is_string _ = false
