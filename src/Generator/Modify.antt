-- ===== src/Generator/Modify.antt =====
-- The generate_* methods that write: INSERT, UPSERT, UPDATE, DELETE.
use cpplinq.Common.{
  List, [], ◌∷◌, ◌++◌, map, Option, none, some, Outcome, ok, ◌>>=◌, is_empty, if◌then◌else◌,
}
use cpplinq.Text.{Text, codes}
use cpplinq.Value.{BoundValue}
use cpplinq.Expr.{ExprNode, AssignExpr}
use cpplinq.Dialect.Quote.{Dialect, column_list}
use cpplinq.Generator.State.{GeneratedSql, Writer, write, ◌<>◌, bind_value, static_slot, finish}
use cpplinq.Generator.Visit.{visit}
use cpplinq.Generator.Select.{write_clause}

unfoldable pub write_values_rest : Dialect → List BoundValue → Writer
write_values_rest d [] = write (codes "")
write_values_rest d (v ∷ vs) =
    write (codes ", ") <> bind_value d.placeholder v <> write_values_rest d vs

unfoldable pub write_values : Dialect → List BoundValue → Writer
unfolding write_values_rest
write_values d [] = write (codes "")
write_values d (v ∷ vs) = bind_value d.placeholder v <> write_values_rest d vs

-- `if (returning_column.has_value() && !returning_column->empty()) sql += clause(...)`
unfoldable pub returning_text : (Text → Text) → Option Text → Text
returning_text clause none = codes ""
returning_text clause (some column) = if is_empty column then codes "" else clause column

unfoldable pub insert_body : Dialect → List Text → List BoundValue → Option Text → Writer
unfolding write_values returning_text column_list
insert_body d [] values returning_column =
    write (returning_text d.output_clause returning_column) <> write (codes " DEFAULT VALUES")
insert_body d (c ∷ cs) values returning_column =
    write (codes " (" ++ (column_list d.quote_id (c ∷ cs) ++ codes ")"))
    <> write (returning_text d.output_clause returning_column)
    <> write (codes " VALUES (")
    <> write_values d values
    <> write (codes ")")

unfoldable pub generate_insert :
    Dialect → Text → List Text → List BoundValue → Option Text → GeneratedSql
unfolding insert_body returning_text
generate_insert d table_name column_names values returning_column = finish (
    write (codes "INSERT INTO " ++ d.quote_id table_name)
    <> insert_body d column_names values returning_column
    <> write (returning_text d.returning_clause returning_column))

unfoldable pub generate_upsert :
    Dialect → Text → List Text → List BoundValue → List Text → List Text → Outcome GeneratedSql
generate_upsert d table_name insert_columns values conflict_columns update_columns = do
  sql ← d.generate_upsert table_name insert_columns values conflict_columns update_columns
  ok (record { sql = sql; params = values; slots = map static_slot values })

-- An assignment to a handle without a column name goes to the name in its table field.
unfoldable pub assigned_column : AssignExpr → Text
assigned_column a = if is_empty a.column_name then a.table_name else a.column_name

unfoldable pub write_assignment : Dialect → AssignExpr → Writer
unfolding assigned_column
write_assignment d a = write (d.quote_id (assigned_column a) ++ codes " = ") <> visit d a.value

unfoldable pub write_assignments_rest : Dialect → List AssignExpr → Writer
unfolding write_assignment
write_assignments_rest d [] = write (codes "")
write_assignments_rest d (a ∷ as_) =
    write (codes ", ") <> write_assignment d a <> write_assignments_rest d as_

unfoldable pub write_assignments : Dialect → List AssignExpr → Writer
unfolding write_assignment write_assignments_rest
write_assignments d [] = write (codes "")
write_assignments d (a ∷ as_) = write_assignment d a <> write_assignments_rest d as_

unfoldable pub generate_update : Dialect → Text → List AssignExpr → Option ExprNode → GeneratedSql
unfolding write_assignments write_clause
generate_update d table_name assignments condition = finish (
    write (codes "UPDATE " ++ (d.quote_id table_name ++ codes " SET "))
    <> write_assignments d assignments
    <> write_clause d (codes " WHERE ") condition)

unfoldable pub write_binding : Dialect → Text × BoundValue → Writer
write_binding d (column, v) = write (d.quote_id column ++ codes " = ") <> bind_value d.placeholder v

unfoldable pub write_bindings_rest : Dialect → List (Text × BoundValue) → Writer
unfolding write_binding
write_bindings_rest d [] = write (codes "")
write_bindings_rest d (b ∷ bs) = write (codes ", ") <> write_binding d b <> write_bindings_rest d bs

unfoldable pub write_bindings : Dialect → List (Text × BoundValue) → Writer
unfolding write_binding write_bindings_rest
write_bindings d [] = write (codes "")
write_bindings d (b ∷ bs) = write_binding d b <> write_bindings_rest d bs

-- The overload of generate_update that takes values.
unfoldable pub generate_update_values :
    Dialect → Text → List (Text × BoundValue) → Option ExprNode → GeneratedSql
unfolding write_bindings write_clause
generate_update_values d table_name assignments condition = finish (
    write (codes "UPDATE " ++ (d.quote_id table_name ++ codes " SET "))
    <> write_bindings d assignments
    <> write_clause d (codes " WHERE ") condition)

unfoldable pub generate_delete : Dialect → Text → Option ExprNode → GeneratedSql
unfolding write_clause
generate_delete d table_name condition = finish (
    write (codes "DELETE FROM " ++ d.quote_id table_name)
    <> write_clause d (codes " WHERE ") condition)
