-- ===== src/Lib.antt =====
-- c2sql maps C structs to tables of SQLite or PostgreSQL. A client registers a struct's columns on
-- a handle, builds conditions, and reads and writes rows; the library generates the SQL, prepares
-- and caches statements, binds values and keeps nested transactions. This library models:
--
-- - Types, Condition: include/c2sql.h and src/condition_ast.h. A C string is the list of its bytes
--   (Prelude/Bytes), an int64_t or a double its bit pattern, a pointer that may be NULL an option.
--   Condition/Nodes is src/condition_ast.c, with the nodes at addresses; Condition/Trees says when
--   the nodes at some addresses are a condition.
-- - QueryBuilder: src/query_builder.c. Buf is the growable buffer, with size_t arithmetic modulo
--   2^64; Emit chains the early returns of the builders as steps on the buffer, the placeholder
--   count and the allocator; Columns, Where and Build are the builders, `build_create` to
--   `build_select_field`, under their names, and `qb_build` is `c2sql_internal_qb_build`. Render
--   and Statement are the independent description: the text as one expression, with no buffer;
--   Render/Pieces compares its types, operators and column tests with those of the code.
-- - Registry: src/schema_registry.c. `identifier_valid`, `register`
--   (c2sql_internal_schema_register), `lookup` and `unregister`; the array of entries is a list
--   with a capacity.
-- - Driver: src/db_driver.h, the interface to a database. The engine behind it is not in the
--   repository; Txn/Matches states as the record TxnLaws what its transaction commands do where
--   they succeed.
-- - Handle: src/handle_internal.h, src/mutex.c, src/error_ctx.c: the handle, one thread's view of
--   its mutex, and the frame of the API functions.
-- - Txn: SqlRDBBeginTx, SqlRDBCommitTx and SqlRDBRollbackTx of src/c2sql.c, with the state of
--   src/txn_manager.h.
-- - TypeMapping: src/type_mapping.c and src/type_mapping.h. A struct's memory is a list of bytes;
--   `cell_of` and `send` are the two halves of `bind_one`, `bind_row` and `read_row` the entry
--   points. TypeMapping/Mirror is a small driver for the examples, and Binding states as the
--   record BindLaws what a database does with a bound parameter.
-- - StmtCache: src/stmt_cache.c and `get_or_prepare` of src/c2sql.c. The entries stand at
--   addresses, each field a function of the address, so that the two linked structures share them
--   as in the source. Hash holds `next_pow2_at_least`, `bucket_count_for` and `hash_sql`;
--   StmtCache the list, the buckets, `cache_init` and `cache_get`; Calls `cache_put`,
--   `cache_rebuild` and `cache_destroy`; Prepare `get_or_prepare`. Links, Lru, Buckets and
--   Represents state the invariant over the list of addresses, Ordered the map that a cache stands
--   for, and Refine that the functions do to it what Ordered says. Interface fills the record
--   Statements of Crud/Rows.
-- - Life: SqlRDBInit (`init`), SqlRDBClose (`close`), SqlRDBSetConfig (`set_config`) and the list
--   of live handles of src/c2sql.c. A process has its handles at addresses, none of which is used
--   again, and keeps the connections that it has closed; the driver's `open` is a parameter. Live
--   has the facts on the list, World the invariant of a process, Opening, Closing and Configured
--   what the three functions come to, History a process that calls SqlRDBInit and SqlRDBClose in any
--   order, and Tally counts connections that pass a test. There is one driver: which one
--   `select_driver` has chosen is not kept in the handle.
-- - Migration: src/migration.c. Migration has the columns and their comparison, Strict the search
--   for the keyword, Steps the loop over the rows of a query as steps on the connection, the
--   allocator and the last error, Reads the queries, Table `c2sql_internal_migrate_table`,
--   Register SqlRDBRegisterStruct (`register_struct`) of src/c2sql.c. Answers states as the record
--   QueryLaws what a database does with a query; Layout is the layout of a table as a function of
--   its answers, as the code decodes them, and Declared what the answers of SQLite and PostgreSQL say
--   of a column apart from that; Existing, Keyword and Correct compose the proofs. The loops over rows run on fuel
--   for more rows than any answer has.
-- - Crud: the row functions of src/c2sql.c. `bind_cond_values`; in Crud/Rows SqlRDBWrite
--   (`write`), SqlRDBWriteMany (`write_many`), SqlRDBDelete (`delete_where`), SqlRDBCount
--   (`count_where`) and SqlRDBRead (`read`), over the record Statements, which stands for the
--   statement cache (StmtCache/Interface fills it); `entry` and `with_statement` are the frame
--   that they share: the checks, the lock, the schema, the SQL, the statement and its release. The
--   source writes the unlock and the release out on every early return; they stand once here.
--   Crud/Rows/Kept states as the record RunLaws what a database does with open statements.
--
-- An allocator (Prelude/Alloc) is the list of the answers to the next calls, and gives memory once
-- the list is used up, so a theorem about every allocator covers every pattern of failures. The
-- loop that doubles the capacity of the buffer runs on fuel 65: a size_t has 64 bits, so after 64
-- doublings the capacity has reached its goal or is 0. So does the loop of `next_pow2_at_least`.
-- The loops over linked entries run on fuel for one more than the field `size`, at least the
-- length of any chain. `none` as the result of an operation is a run with no defined outcome: a
-- loop that does not end, an access out of bounds, a lock never given.
--
-- Not modelled: values of an enum other than its enumerators (the default branches of switches), the
-- lock of the list of live handles, the iterator of SqlRDBReadMany, blob fields,
-- the drivers' calls of their client libraries, error message texts, the logger, and the schema
-- generator in tools/.
mod Prelude
pub mod Types
pub mod Condition
pub mod QueryBuilder
pub mod Registry
pub mod Driver
pub mod Handle
pub mod Txn
pub mod TypeMapping
pub mod StmtCache
pub mod Life
pub mod Migration
pub mod Crud
