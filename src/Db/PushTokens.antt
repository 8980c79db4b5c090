-- ===== src/Db/PushTokens.antt =====
-- backend/src/db/push_tokens.rs: the tokens of the apps that receive pushes.
pub mod Pruning
pub mod Uniqueness
use oott.Prelude.{
  ℕ, ◌+◌, Bool, not, some, List, [], ◌∷◌, ◌++◌, keep, any, map, update_where, leb, if◌then◌else◌,
}
use oott.Prelude.Text.{Text, text_eq}
use oott.Model.PushToken.{PushToken, PushPlatform}
use oott.Db.Sql.{count_where, order_by, next_id}
use oott.Db.State.{
  Tables, Env, DbError, Result, ok, Db, pure, get_db_connection, execute, transaction, utc_now,
  ◌>>=◌, ◌>>◌,
}

abbrev pub has_token : Text → PushToken → Bool
has_token token p = text_eq p.token token

-- The row that is inserted where the token is new.
abbrev pub token_row : Text → PushPlatform → ℕ → ℕ → PushToken
token_row token platform at id = record {
  id = id;
  token = token;
  platform = platform;
  created_on = at;
  last_seen = at;
}

-- INSERT … ON CONFLICT(token) DO UPDATE.
unfoldable pub upsert_rows : Text → PushPlatform → ℕ → List PushToken → List PushToken
upsert_rows token platform at rows =
    if any (has_token token) rows
    then update_where (has_token token) (λ p. record p { platform = platform; last_seen = at }) rows
    else rows ++ token_row token platform at (next_id (map (λ p. some p.id) rows)) ∷ []

-- `upsert`.
unfoldable pub upsert : Env → Text → PushPlatform → Db (Unit {0})
unfolding get_db_connection execute utc_now upsert_rows
upsert env token platform = do
  get_db_connection env
  at ← utc_now env
  execute env λ t. ok (tt, record t { push_tokens = upsert_rows token platform at t.push_tokens })

-- `list`, in the order of the ids.
unfoldable pub list : Env → Db (List PushToken)
unfolding get_db_connection execute order_by
list env = do
  get_db_connection env
  execute env λ t. ok (order_by (λ a b. leb a.id b.id) t.push_tokens, t)

abbrev pub delete_row : Text → Tables → Result DbError (ℕ × Tables)
delete_row token t = ok (
  count_where (has_token token) t.push_tokens,
  record t { push_tokens = keep (λ p. not (has_token token p)) t.push_tokens },
)

-- `delete`, which returns the number of rows deleted.
unfoldable pub delete : Env → Text → Db ℕ
unfolding get_db_connection execute
delete env token = do get_db_connection env; execute env (delete_row token)

-- The loop of `delete_many` inside its transaction; `prepared` rows are deleted one token at a time.
unfoldable pub delete_each : Env → ℕ → List Text → Db ℕ
unfolding execute
delete_each env deleted [] = pure deleted
delete_each env deleted (token ∷ tokens) =
    execute env (delete_row token) >>= λ n. delete_each env (deleted + n) tokens

-- `delete_many`. The preparation of the statement is a call that can fail, too.
unfoldable pub delete_many : Env → List Text → Db ℕ
unfolding get_db_connection transaction delete_each execute
delete_many env [] = pure 0
delete_many env (token ∷ tokens) = do
  get_db_connection env
  transaction env (do execute env (λ t. ok (tt, t)); delete_each env 0 (token ∷ tokens))
