-- ===== src/QueryBuilder/Render/Pieces.antt =====
-- The small texts and tests of src/query_builder.c against those of the reference.
use c2sql.Prelude.{
  ℕ, zero, suc, ◌≡◌, refl, CStr, ◌&&◌, List, [], ◌∷◌, ◌++◌, arith, if◌then◌else◌, lit,
}
use c2sql.Types.{
  SqlRdbType, int32, int64, real, text, blob, SqlDialect, sqlite, postgres, SqlRdbResult, ok,
  err_unknown_column, is_ok, ColumnDef,
}
use c2sql.Condition.{Condition, leaf, and_node, or_node, match_all}
use c2sql.QueryBuilder.Emit.{placeholder}
use c2sql.QueryBuilder.Columns.{type_to_sql_str}
use c2sql.QueryBuilder.Where.{op_to_sql_str, schema_has_column, validate_cond_columns}
use c2sql.QueryBuilder.Render.{mark, type_text, operator_text, is_column, cond_columns, has_columns}

pub placeholder-mark : (d : SqlDialect) (n : ℕ) → placeholder d n ≡ mark d n
unfolding placeholder lit
placeholder-mark sqlite n = refl
placeholder-mark postgres n = refl

pub type_to_sql_str-type_text :
    (t : SqlRdbType) (d : SqlDialect) → type_to_sql_str t d ≡ type_text d t
unfolding type_to_sql_str
type_to_sql_str-type_text int32 sqlite = refl
type_to_sql_str-type_text int64 sqlite = refl
type_to_sql_str-type_text real sqlite = refl
type_to_sql_str-type_text text sqlite = refl
type_to_sql_str-type_text blob sqlite = refl
type_to_sql_str-type_text int32 postgres = refl
type_to_sql_str-type_text int64 postgres = refl
type_to_sql_str-type_text real postgres = refl
type_to_sql_str-type_text text postgres = refl
type_to_sql_str-type_text blob postgres = refl

pub op_to_sql_str-operator_text : (op : ℕ) → op_to_sql_str op ≡ operator_text op
unfolding op_to_sql_str
op_to_sql_str-operator_text zero = refl
op_to_sql_str-operator_text (suc zero) = refl
op_to_sql_str-operator_text (suc (suc zero)) = refl
op_to_sql_str-operator_text (suc (suc (suc zero))) = refl
op_to_sql_str-operator_text (suc (suc (suc (suc zero)))) = refl
op_to_sql_str-operator_text (suc (suc (suc (suc (suc zero))))) = refl
op_to_sql_str-operator_text (suc (suc (suc (suc (suc (suc zero)))))) = refl
op_to_sql_str-operator_text (suc (suc (suc (suc (suc (suc (suc op))))))) = ground arith

pub schema_has_column-is_column :
    (cols : List ColumnDef) (name : CStr) → schema_has_column cols name ≡ is_column cols name
unfolding schema_has_column
schema_has_column-is_column [] name = refl
schema_has_column-is_column (c ∷ cols) name = ground (arith, schema_has_column-is_column cols name)

has_columns-append :
    (cols : List ColumnDef) (xs ys : List CStr)
    → has_columns cols (xs ++ ys) ≡ (has_columns cols xs && has_columns cols ys)
has_columns-append cols [] ys = refl
has_columns-append cols (x ∷ xs) ys = ground (arith, has_columns-append cols xs ys)

abbrev known : List ColumnDef → Condition → SqlRdbResult
known cols c = if has_columns cols (cond_columns c) then ok else err_unknown_column

both_known :
    (cols : List ColumnDef) (l r : Condition) (left right : SqlRdbResult)
    → left ≡ known cols l
    → right ≡ known cols r
    → (if is_ok left then right else left)
      ≡ (if has_columns cols (cond_columns l ++ cond_columns r) then ok else err_unknown_column)
both_known cols l r left right a b =
    rw (a, b, has_columns-append cols (cond_columns l) (cond_columns r)) (ground arith)

pub validate_cond_columns-has_columns :
    (c : Condition) (cols : List ColumnDef)
    → validate_cond_columns c cols
      ≡ (if has_columns cols (cond_columns c) then ok else err_unknown_column)
unfolding validate_cond_columns
validate_cond_columns-has_columns match_all cols = refl
validate_cond_columns-has_columns (leaf col op v) cols =
    rw (schema_has_column-is_column cols col) (ground arith)
validate_cond_columns-has_columns (and_node l r) cols =
    both_known cols l r _ _ (validate_cond_columns-has_columns l cols)
      (validate_cond_columns-has_columns r cols)
validate_cond_columns-has_columns (or_node l r) cols =
    both_known cols l r _ _ (validate_cond_columns-has_columns l cols)
      (validate_cond_columns-has_columns r cols)
