-- ===== src/Db/PushTokens/Pruning.antt =====
-- Deleting the tokens that the relay reports dead: all of them, or none.
use oott.Prelude.{
  ℕ, ◌+◌, Bool, true, not, ◌||◌, ◌≡◌, refl, ap, sym, ◌∙◌, List, [], ◌∷◌, any, keep, length, arith,
  Bool-cases, inl, inr,
}
use oott.Prelude.Text.{Text, text_eq}
use oott.Model.PushToken.{PushToken}
use oott.Db.State.{
  Outcome, World, Env, Tables, Result, ok, err, DbError, transaction, close_transaction, called,
  execute, Db, ◌>>◌,
}
use oott.Db.Sql.{count_where}
use oott.Db.PushTokens.{has_token, delete_each, delete_many}

-- Whether the token of a row is listed.
abbrev pub is_listed : List Text → PushToken → Bool
is_listed tokens p = any (λ t. text_eq p.token t) tokens

keep-twice :
    (p q : PushToken → Bool) (ps : List PushToken)
    → keep (λ x. not (q x)) (keep (λ x. not (p x)) ps) ≡ keep (λ x. not (p x || q x)) ps
keep-twice p q [] = refl
keep-twice p q (x ∷ ps) = ground (arith, keep-twice p q ps)

keep-all : (ps : List PushToken) → keep (λ x. true) ps ≡ ps
keep-all [] = refl
keep-all (x ∷ ps) = ap (λ l. x ∷ l) (keep-all ps)

count-keep-not :
    (p : PushToken → Bool) (ps : List PushToken)
    → count_where p ps + length (keep (λ x. not (p x)) ps) ≡ length ps
count-keep-not p [] = refl
count-keep-not p (x ∷ ps) = ground (arith, count-keep-not p ps)

-- What pruning promises: the listed rows are gone and counted, and all else is as it was.
pub record IsPruned (tokens : List Text) (before after : Tables) (deleted : ℕ) : Type 0 where
  pub rows : after.push_tokens ≡ keep (λ p. not (is_listed tokens p)) before.push_tokens
  pub counted : deleted + length after.push_tokens ≡ length before.push_tokens
  pub devices : after.devices ≡ before.devices
  pub device_events : after.device_events ≡ before.device_events
  pub notifications : after.notifications ≡ before.notifications

-- The loop, counting from `deleted`.
record PrunesFrom (deleted : ℕ) (tokens : List Text) (before after : Tables) (n : ℕ) : Type 0 where
  rows : after.push_tokens ≡ keep (λ p. not (is_listed tokens p)) before.push_tokens
  counted : n + length after.push_tokens ≡ deleted + length before.push_tokens
  devices : after.devices ≡ before.devices
  device_events : after.device_events ≡ before.device_events
  notifications : after.notifications ≡ before.notifications

abbrev deleted_from : Text → Tables → Tables
deleted_from token t = record t { push_tokens = keep (λ p. not (has_token token p)) t.push_tokens }

PrunesFrom-step :
    (deleted : ℕ) (token : Text) (tokens : List Text) (before after : Tables) (n : ℕ)
    → PrunesFrom
        (deleted + count_where (has_token token) before.push_tokens)
        tokens
        (deleted_from token before)
        after
        n
    → PrunesFrom deleted (token ∷ tokens) before after n
PrunesFrom-step deleted token tokens before after n h = record {
  rows = h.rows ∙ keep-twice (has_token token) (is_listed tokens) before.push_tokens;
  counted =
      let c = count-keep-not (has_token token) before.push_tokens in
      let d = h.counted in omega arith;
  devices = h.devices;
  device_events = h.device_events;
  notifications = h.notifications;
}

-- One token more.
later :
    (deleted : ℕ) (token : Text) (tokens : List Text) (before : Tables)
    (r : Result DbError ℕ × World)
    → Outcome Unit
        (PrunesFrom
          (deleted + count_where (has_token token) before.push_tokens)
          tokens
          (deleted_from token before)
          r.1.tables)
        r.0
    → Outcome Unit (PrunesFrom deleted (token ∷ tokens) before r.1.tables) r.0
later deleted token tokens before (ok n, w) h =
    PrunesFrom-step deleted token tokens before w.tables n h
later deleted token tokens before (err e, w) h = tt

pruned :
    (tokens : List Text) (before : Tables) (r : Result DbError ℕ × World)
    → Outcome Unit (PrunesFrom 0 tokens before r.1.tables) r.0
    → Outcome Unit (IsPruned tokens before r.1.tables) r.0
pruned tokens before (ok n, w) h = record {
  rows = h.rows;
  counted = let c = h.counted in omega arith;
  devices = h.devices;
  device_events = h.device_events;
  notifications = h.notifications;
}
pruned tokens before (err e, w) h = tt

abbrev prune : Env → List Text → Db ℕ
prune env tokens = do execute env (λ t. ok (tt, t)); delete_each env 0 tokens

delete_each-PrunesFrom :
    (env : Env) (deleted : ℕ) (tokens : List Text) (w : World)
    → Outcome Unit
        (PrunesFrom deleted tokens w.tables (delete_each env deleted tokens w).1.tables)
        (delete_each env deleted tokens w).0
unfolding delete_each
delete_each-PrunesFrom env deleted [] w = record {
  rows = sym (keep-all w.tables.push_tokens);
  counted = refl;
  devices = refl;
  device_events = refl;
  notifications = refl;
}
delete_each-PrunesFrom env deleted (token ∷ tokens) w =
    elim (Bool-cases (env.db_fails w.db_calls)) [
      | inl e ↦ rw e tt
      | inr e ↦
          let n = deleted + count_where (has_token token) w.tables.push_tokens in
          let w' = record (called w) { tables = deleted_from token w.tables } in
          rw e (
            later deleted token tokens w.tables (delete_each env n tokens w')
              (delete_each-PrunesFrom env n tokens w'))
    ]

-- The body of the transaction: the statement is prepared, then each token is deleted.
prune-IsPruned :
    (env : Env) (tokens : List Text) (w : World)
    → Outcome Unit (IsPruned tokens w.tables (prune env tokens w).1.tables) (prune env tokens w).0
unfolding execute
prune-IsPruned env tokens w = elim (Bool-cases (env.db_fails w.db_calls)) [
  | inl e ↦ rw e tt
  | inr e ↦ rw e (
      pruned tokens w.tables (delete_each env 0 tokens (called w))
        (delete_each-PrunesFrom env 0 tokens (called w)))
]

close-IsPruned :
    (env : Env) (tokens : List Text) (before : Tables) (r : Result DbError ℕ × World)
    → Outcome Unit (IsPruned tokens before r.1.tables) r.0
    → Outcome
        ((close_transaction env before r).1.tables ≡ before)
        (IsPruned tokens before (close_transaction env before r).1.tables)
        (close_transaction env before r).0
close-IsPruned env tokens before (ok n, w) h = ground arith
close-IsPruned env tokens before (err e, w) h = refl

committed :
    (env : Env) (tokens : List Text) (w : World)
    → Outcome
        ((transaction env (prune env tokens) w).1.tables ≡ w.tables)
        (IsPruned tokens w.tables (transaction env (prune env tokens) w).1.tables)
        (transaction env (prune env tokens) w).0
unfolding transaction
committed env tokens w = elim (Bool-cases (env.db_fails w.db_calls)) [
  | inl e ↦ rw e refl
  | inr e ↦ rw e (
      close-IsPruned env tokens w.tables (prune env tokens (called w))
        (prune-IsPruned env tokens (called w)))
]

-- `delete_many` is atomic: it either fails and leaves every table as it was, or it deletes all rows
-- with a listed token and no other row, returns how many they were, and leaves the other tables.
pub delete_many_atomic :
    (env : Env) (tokens : List Text) (w : World)
    → Outcome
        ((delete_many env tokens w).1.tables ≡ w.tables)
        (IsPruned tokens w.tables (delete_many env tokens w).1.tables)
        (delete_many env tokens w).0
unfolding delete_many
delete_many_atomic env [] w = record {
  rows = sym (keep-all w.tables.push_tokens);
  counted = omega arith;
  devices = refl;
  device_events = refl;
  notifications = refl;
}
delete_many_atomic env (token ∷ tokens) w = elim (Bool-cases (env.db_fails w.db_calls)) [
  | inl e ↦ rw e refl
  | inr e ↦ rw e (committed env (token ∷ tokens) (called w))
]
