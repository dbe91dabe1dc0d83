-- ===== src/Registry/Identifier.antt =====
-- `identifier_valid` and the reserved words of src/schema_registry.c. The C locale's `isalpha`,
-- `isalnum` and `toupper` are written out over bytes.
pub mod Exact
use c2sql.Prelude.{
  ℕ, suc, ◌-◌, CStr, Bool, true, false, not, ◌&&◌, ◌||◌, List, [], ◌∷◌, map, ◌==◌, leb,
  if◌then◌else◌, lit, str_eq, String,
}

is_upper : ℕ → Bool
is_upper c = leb b'A' c && leb c b'Z'

is_lower : ℕ → Bool
is_lower c = leb b'a' c && leb c b'z'

is_digit : ℕ → Bool
is_digit c = leb b'0' c && leb c b'9'

-- `isalpha(c) || c == '_'`
unfoldable pub starts_ident : ℕ → Bool
unfolding is_upper is_lower
starts_ident c = is_upper c || is_lower c || c == b'_'

-- `isalnum(c) || c == '_'`
unfoldable pub in_ident : ℕ → Bool
unfolding is_upper is_lower is_digit
in_ident c = is_upper c || is_lower c || is_digit c || c == b'_'

unfoldable pub to_upper : ℕ → ℕ
unfolding is_lower
to_upper c = if is_lower c then c - 32 else c

abbrev pub max_ident_len : ℕ
max_ident_len = 128

unfoldable pub reserved_words : List String
reserved_words =
    "ABORT" ∷ "ACTION" ∷ "ADD" ∷ "AFTER" ∷ "ALL" ∷ "ALTER" ∷ "ALWAYS" ∷ "ANALYZE" ∷ "AND" ∷ "AS"
    ∷ "ASC" ∷ "ATTACH" ∷ "AUTOINCREMENT" ∷ "BEFORE" ∷ "BEGIN" ∷ "BETWEEN" ∷ "BY" ∷ "CASCADE"
    ∷ "CASE" ∷ "CAST" ∷ "CHECK" ∷ "COLLATE" ∷ "COLUMN" ∷ "COMMIT" ∷ "CONFLICT" ∷ "CONSTRAINT"
    ∷ "CREATE" ∷ "CROSS" ∷ "CURRENT" ∷ "CURRENT_DATE" ∷ "CURRENT_TIME" ∷ "CURRENT_TIMESTAMP"
    ∷ "DATABASE" ∷ "DEFAULT" ∷ "DEFERRABLE" ∷ "DEFERRED" ∷ "DELETE" ∷ "DETACH" ∷ "DISTINCT" ∷ "DO"
    ∷ "DROP" ∷ "EACH" ∷ "ELSE" ∷ "END" ∷ "ESCAPE" ∷ "EXCEPT" ∷ "EXCLUDE" ∷ "EXCLUSIVE" ∷ "EXISTS"
    ∷ "EXPLAIN" ∷ "FAIL" ∷ "FILTER" ∷ "FIRST" ∷ "FOLLOWING" ∷ "FOR" ∷ "FOREIGN" ∷ "FROM" ∷ "FULL"
    ∷ "GENERATED" ∷ "GLOB" ∷ "GROUP" ∷ "GROUPS" ∷ "HAVING" ∷ "IF" ∷ "IGNORE" ∷ "IMMEDIATE" ∷ "IN"
    ∷ "INDEX" ∷ "INDEXED" ∷ "INITIALLY" ∷ "INNER" ∷ "INSERT" ∷ "INSTEAD" ∷ "INTERSECT" ∷ "INTO"
    ∷ "IS" ∷ "ISNULL" ∷ "JOIN" ∷ "KEY" ∷ "LAST" ∷ "LEFT" ∷ "LIKE" ∷ "LIMIT" ∷ "MATCH"
    ∷ "MATERIALIZED" ∷ "NATURAL" ∷ "NO" ∷ "NOT" ∷ "NOTHING" ∷ "NOTNULL" ∷ "NULL" ∷ "NULLS" ∷ "OF"
    ∷ "OFFSET" ∷ "ON" ∷ "OR" ∷ "ORDER" ∷ "OTHERS" ∷ "OUTER" ∷ "OVER" ∷ "PARTITION" ∷ "PLAN"
    ∷ "PRAGMA" ∷ "PRECEDING" ∷ "PRIMARY" ∷ "QUERY" ∷ "RAISE" ∷ "RANGE" ∷ "RECURSIVE" ∷ "REFERENCES"
    ∷ "REGEXP" ∷ "REINDEX" ∷ "RELEASE" ∷ "RENAME" ∷ "REPLACE" ∷ "RESTRICT" ∷ "RETURNING" ∷ "RIGHT"
    ∷ "ROLLBACK" ∷ "ROW" ∷ "ROWS" ∷ "SAVEPOINT" ∷ "SELECT" ∷ "SET" ∷ "TABLE" ∷ "TEMP" ∷ "TEMPORARY"
    ∷ "THEN" ∷ "TIES" ∷ "TO" ∷ "TRANSACTION" ∷ "TRIGGER" ∷ "UNBOUNDED" ∷ "UNION" ∷ "UNIQUE"
    ∷ "UPDATE" ∷ "USING" ∷ "VACUUM" ∷ "VALUES" ∷ "VIEW" ∷ "VIRTUAL" ∷ "WHEN" ∷ "WHERE" ∷ "WINDOW"
    ∷ "WITH" ∷ "WITHOUT" ∷ []

-- The loop over the reserved words.
unfoldable pub is_reserved : CStr → List String → Bool
is_reserved upper [] = false
is_reserved upper (w ∷ ws) = if str_eq upper (lit w) then true else is_reserved upper ws

-- The loop over the characters after the first, `len` characters in.
unfoldable pub scan : ℕ → CStr → Bool
scan len [] = true
scan len (c ∷ s) =
    let rest = scan (suc len) s in
    if leb max_ident_len len then false else if in_ident c then rest else false

unfoldable pub valid_chars : CStr → Bool
valid_chars [] = false
valid_chars (c ∷ s) = starts_ident c && scan 1 s

unfoldable pub identifier_valid : CStr → Bool
identifier_valid name = valid_chars name && not (is_reserved (map to_upper name) reserved_words)
