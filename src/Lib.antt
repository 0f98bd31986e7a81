-- ===== src/Lib.antt =====
-- Verification of cpplinq, a library that builds SQL statements from C++ expressions.
--
-- The program. A query builder makes expression nodes (include/cpplinq/core/expression.h).
-- SqlGenerator (src/sql_generator.cpp) writes them as one statement for a dialect
-- (include/cpplinq/dialect/dialect.h, src/dialect/*), and collects the parameters and the slots of
-- the placeholders. PreparedQuery and PreparedCommand (include/cpplinq/core/prepared_query.h) bind
-- the slots on a statement of a driver. The PostgreSQL driver first renumbers the placeholders
-- (src/driver/postgres_connection.cpp).
--
-- The model.
--   Text         std::string as a list of bytes. A code above 255 never comes from the program: it
--                stands for a numbered placeholder.
--   Value        include/cpplinq/mapping/data_types.h: the alternatives of SqlValue and BoundValue.
--                Value.Utf8 is the conversion of wide strings where wchar_t has 32 bits, and
--                Value.Guid is SqlGuid.
--   Expr         the nodes of expression.h. A null pointer to a node is null_node. Expr.Functions
--                are the methods of Expr, the operators and the functions that make nodes; operator==
--                is `equal`, operator&& is `both`, and so on.
--   Table        include/cpplinq/core/table.h and column.h. A pointer to a member is the function that
--                reads it as a BoundValue.
--   Dialect      ISqlDialect as a record, and one child module for each dialect. `X_with` is the
--                dialect with its method `placeholder` as an argument; each dialect of the program
--                takes a question mark.
--   Generator    SqlGenerator. The text that a piece of code appends and the state that it leaves
--                (parameters, counter, slots) are a Writer; a method is a chain of writers in the
--                order of the code. Generator.Request is the call of any public method.
--   Driver       Driver.Postgres is convert_placeholders_to_pg; Driver.Numbered applies it to what
--                the generator writes.
--                Driver.Defaults are the default methods of IConnection (src/driver/connection.cpp).
--   Session      the calls of include/cpplinq/driver/connection.h. A driver is any function from the
--                calls made so far to an answer; an operation is a session with it, which returns or
--                throws and leaves the history of its calls. Session.Transaction is the class
--                Transaction around a piece of code. Session.Observed is what a database makes of a
--                history: which statements it has executed, with which values.
--   Context      DbContext of include/cpplinq/core/db_context.h: a child for each bulk operation. The
--                chunks of a loop over offsets are Context.slices.
--   Builder      include/cpplinq/core/query_builder.h. An operation that builds is a function on the
--                record of the builder; Builder.Steps is a sequence of such calls. Joins, Joins3 and
--                Combined are JoinedQueryBuilder, Joined3QueryBuilder and SetOpQueryBuilder.
--                Builder.Terminals are the operations that run a query.
--   Prepared     the loop that binds slots, as the list of calls that the driver's statement gets.
--   Pool         ConnectionPoolState of include/cpplinq/driver/connection_pool.h. Each section that
--                holds the mutex is a function; Pool.Steps is the step relation of the threads.
--   Executor     BoundedTaskExecutor of include/cpplinq/driver/async_executor.h, likewise.
--   Chunks       ChunkedBuffer of include/cpplinq/core/chunked_buffer.h. A chunk is the list of the
--                elements constructed in its storage.
--
-- The proofs.
--   Agree        runs the generator with two dialects side by side. A relation between texts that
--                holds of quiet text, of what the dialects write and of joined pieces, holds of the
--                statements; the parameters and slots are the same. Agree.Requests says which
--                requests are regular: function names and join types are quiet text (no quotes, no
--                brackets, no question mark), an empty IN list has an operand without parameters,
--                and an upsert has columns, conflict columns and a value for each column.
--   Scan         a reader of SQL text that knows string literals and quoted identifiers, and finds
--                the placeholders outside of both. It is independent of the generator.
--   Laws         what each dialect keeps of such relations.
--   Placeholders the placeholders of a statement against its slots, and which requests return.
--   Identifiers  reading quoted names back.
--   Value.Utf8.Shape, Executor.Taken  the table of UTF-8, and the jobs that workers begin next.
--   Conflicts    the text of an Oracle MERGE around its updates; Conflicts.Filter is the filter of
--                its columns.
--   Session.Triples  what holds after a session that starts in an observed state, and what is left
--                behind when it throws.
--   Builder.Clauses, Builder.Bound  what a sequence of calls makes of a query, and that regular
--                expressions make regular requests; Expr.Functions.Made says which expressions are, and
--                Expr.Functions.Count counts what they were given.
--   Tests        runs on concrete requests, and each theorem at one of them.
--
-- Fuel. std::to_string is modelled with as many rounds as the number has units, plus one; every
-- number has fewer digits than that. The loops over chunks have as many rounds as there are
-- elements, and utf8_to_wstring as many as there are bytes; each round takes one at least. Reading
-- the rows of a result has a bound as its argument, since a driver may have rows without end.
--
-- Not modelled. Calls of database libraries; row mapping (the reading of a row is an argument of the
-- terminal operations); a stream after it has got its reader; opening and closing a connection; the
-- parsing, printing and comparison of dates and decimal numbers, the random GUID; of the pool and the
-- executor, the wake-ups of condition variables, promises and threads, and the submission of work
-- to a pool; of the chunked buffer, its iterators and its moves. Sizes are unbounded numbers, since
-- a counter of parameters or an offset into a vector cannot reach the limit of size_t in memory. A
-- double is an opaque number: the program only passes it on.
pub mod Common
pub mod Text
pub mod Value
pub mod Expr
pub mod Dialect
pub mod Generator
pub mod Agree
pub mod Scan
pub mod Laws
pub mod Placeholders
pub mod Driver
pub mod Identifiers
pub mod Prepared
pub mod Tests
pub mod Pool
pub mod Executor
pub mod Conflicts
pub mod Chunks
pub mod Session
pub mod Table
pub mod Context
pub mod Builder
