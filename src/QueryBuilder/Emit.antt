-- ===== src/QueryBuilder/Emit.antt =====
-- Steps over the buffer, the bind counter and the allocator. In src/query_builder.c a fragment
-- returns `false`, and a builder `SQL_RDB_ERR_NO_MEMORY`, as soon as one `buf_append` fails; here
-- each step returns the result code and `>>` goes on only after `ok`.
pub mod Rules
use c2sql.Prelude.{
  ℕ, ◌+◌, CStr, Bool, Option, none, some, ◌++◌, if◌then◌else◌, take, Memory, decimal, lit,
}
use c2sql.Types.{SqlRdbResult, ok, err_no_memory, is_ok, SqlDialect, sqlite, postgres}
use c2sql.QueryBuilder.Buf.{Buf, buf_append}

pub record BuildState : Type 0 where
  pub buf : Buf
  pub binds : ℕ
  pub memory : Memory

-- `none` is a run with no defined result.
abbrev pub Step : Type 0
Step = BuildState → Option (SqlRdbResult × BuildState)

abbrev pub after_step :
    Step → Option (SqlRdbResult × BuildState) → Option (SqlRdbResult × BuildState)
after_step k none = none
after_step k (some (r, st)) = if is_ok r then k st else some (r, st)

infixr 5 ◌>>◌
unfoldable pub ◌>>◌ : Step → Step → Step
◌>>◌ m k st = after_step k (m st)

unfoldable pub return : SqlRdbResult → Step
return r st = some (r, st)

abbrev pub appended_state :
    BuildState → Option (Bool × Buf × Memory) → Option (SqlRdbResult × BuildState)
appended_state st none = none
appended_state st (some (done, b, m)) =
    some (if done then ok else err_no_memory, record st { buf = b; memory = m })

-- `buf_append(b, s)`
unfoldable pub append : CStr → Step
unfolding buf_append
append s st = appended_state st (buf_append st.buf s st.memory)

-- `if (test) { if (!buf_append(b, s)) return false; }`
unfoldable pub append_when : Bool → CStr → Step
append_when test s = if test then append s else return ok

-- `(*bind_count)++`
unfoldable pub count_bind : Step
count_bind st = some (ok, record st { binds = st.binds + 1 })

-- `snprintf(tmp, 16, "$%zu", n)` keeps 15 characters.
unfoldable pub placeholder : SqlDialect → ℕ → CStr
placeholder sqlite n = lit "?"
placeholder postgres n = take 15 (lit "$" ++ decimal n)

unfoldable pub append_placeholder : SqlDialect → Step
append_placeholder d = count_bind >> λ st. append (placeholder d st.binds) st
