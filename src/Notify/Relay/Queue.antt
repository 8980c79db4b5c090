-- ===== src/Notify/Relay/Queue.antt =====
-- A push through the relay leaves the queue alone.
use oott.Prelude.{ℕ, ◌+◌, ◌≡◌, refl, Option, none, some, List, [], ◌∷◌, arith}
use oott.Prelude.Text.{Text}
use oott.Model.PushToken.{PushToken}
use oott.Settings.{Push}
use oott.Db.{
  ◌>>◌, World, Env, Tables, Db, DbError, Result, ok, err, execute, bind_result, transaction, called,
  close_transaction, get_db_connection,
}
use oott.Db.PushTokens.{list, delete_row, delete_each, delete_many}
use oott.Notify.Relay.{
  Relay, RelayTokenResult, send, after_list, after_answer, deleted_then, dead_tokens,
  delivered_count,
}

-- Two worlds with the same queue.
pub record SameQueue (w w' : World) : Type 0 where
  pub queue : w'.queue ≡ w.queue
  pub delivery_tx : w'.delivery_tx ≡ w.delivery_tx

SameQueue-trans : {u v w : World} → SameQueue u v → SameQueue v w → SameQueue u w
SameQueue-trans h k = ground arith

execute-SameQueue :
    {A : Type 0} (env : Env) (statement : Tables → Result DbError (A × Tables)) (w : World)
    → SameQueue w (execute env statement w).1
unfolding execute
execute-SameQueue env statement w = ground arith

bind-SameQueue :
    {A B : Type 0} (f : A → Db B) (r : Result DbError A × World) (w : World)
    → SameQueue w r.1
    → ((a : A) → SameQueue r.1 (f a r.1).1)
    → SameQueue w (bind_result f r).1
bind-SameQueue f (ok a, v) w h k = SameQueue-trans h (k a)
bind-SameQueue f (err e, v) w h k = h

delete_each-SameQueue :
    (env : Env) (n : ℕ) (tokens : List Text) (w : World)
    → SameQueue w (delete_each env n tokens w).1
unfolding delete_each
delete_each-SameQueue env n [] w = record { queue = refl; delivery_tx = refl }
delete_each-SameQueue env n (t ∷ ts) w =
    let r = execute env (delete_row t) w in
    bind-SameQueue (λ k. delete_each env (n + k) ts) r w (execute-SameQueue env (delete_row t) w)
      (λ k. delete_each-SameQueue env (n + k) ts r.1)

close_transaction-SameQueue :
    {A : Type 0} (env : Env) (before : Tables) (r : Result DbError A × World) (w : World)
    → SameQueue w r.1
    → SameQueue w (close_transaction env before r).1
close_transaction-SameQueue env before (ok a, v) w h = ground arith
close_transaction-SameQueue env before (err e, v) w h = ground arith

transaction-SameQueue :
    {A : Type 0} (env : Env) (body : Db A) (w : World)
    → SameQueue (called w) (body (called w)).1
    → SameQueue w (transaction env body w).1
unfolding transaction
transaction-SameQueue env body w h =
    ground (arith, close_transaction-SameQueue env w.tables (body (called w)) (called w) h)

get_db_connection-SameQueue : (env : Env) (w : World) → SameQueue w (get_db_connection env w).1
unfolding get_db_connection
get_db_connection-SameQueue env w = ground arith

delete_many-SameQueue :
    (env : Env) (tokens : List Text) (w : World) → SameQueue w (delete_many env tokens w).1
unfolding delete_many
delete_many-SameQueue env [] w = record { queue = refl; delivery_tx = refl }
delete_many-SameQueue env (t ∷ ts) w =
    let r = get_db_connection env w in
    let prepared = execute {A = Unit {0}} env (λ t. ok (tt, t)) (called r.1) in
    let deletes = delete_each env 0 (t ∷ ts) in
    bind-SameQueue
      (λ _. transaction env (do execute env (λ t. ok (tt, t)); delete_each env 0 (t ∷ ts))) r w
      (get_db_connection-SameQueue env w)
      (λ _.
        transaction-SameQueue env (do execute env (λ t. ok (tt, t)); deletes) r.1
          (bind-SameQueue (λ _. deletes) prepared (called r.1)
            (execute-SameQueue env (λ t. ok (tt, t)) (called r.1))
            (λ _. delete_each-SameQueue env 0 (t ∷ ts) prepared.1)))

list-SameQueue : (env : Env) (w : World) → SameQueue w (list env w).1
unfolding list
list-SameQueue env w = ground arith

deleted_then-SameQueue :
    (n : ℕ) (r : Result DbError ℕ × World) (w : World)
    → SameQueue w r.1
    → SameQueue w (deleted_then n r).1
deleted_then-SameQueue n (ok k, v) w h = h
deleted_then-SameQueue n (err e, v) w h = h

after_answer-SameQueue :
    (env : Env) (answer : Option (List RelayTokenResult)) (w : World)
    → SameQueue w (after_answer env answer w).1
unfolding after_answer
after_answer-SameQueue env none w = record { queue = refl; delivery_tx = refl }
after_answer-SameQueue env (some results) w =
    deleted_then-SameQueue (delivered_count results) (delete_many env (dead_tokens results) w) w
      (delete_many-SameQueue env (dead_tokens results) w)

after_list-SameQueue :
    (env : Env) (relay : Relay) (config : Push) (title body : Text)
    (r : Result DbError (List PushToken) × World) (w : World)
    → SameQueue w r.1
    → SameQueue w (after_list env relay config title body r).1
unfolding after_list
after_list-SameQueue env relay config title body (err e, v) w h = h
after_list-SameQueue env relay config title body (ok [], v) w h = h
after_list-SameQueue env relay config title body (ok (p ∷ ps), v) w h =
    SameQueue-trans h (after_answer-SameQueue env _ v)

pub send-SameQueue :
    (env : Env) (relay : Relay) (config : Push) (title body : Text) (w : World)
    → SameQueue w (send env relay config title body w).1
unfolding send
send-SameQueue env relay config title body w =
    after_list-SameQueue env relay config title body (list env w) w (list-SameQueue env w)
