-- ===== src/Notify/Relay/Pushing.antt =====
-- What a push through the relay leaves of the tokens.
use oott.Prelude.{
  sym, ◌≢◌, leb, Bool, true, ◌||◌, ℕ, ◌≡◌, ◌⊎◌, refl, Option, none, some, List, [], ◌∷◌, map, arith,
  inl, inr,
}
use mathlib.Core.Path.{subst}
use mathlib.Core.List.{Perm}
use oott.Db.Sorting.{IsOrdered, order_by-Perm, order_by-IsOrdered}
use oott.Prelude.Text.{Text}
use oott.Model.PushToken.{PushToken}
use oott.Settings.{Push}
use oott.Db.{World, Env, Tables, DbError, Result, ok, err, Outcome, insert_by, order_by}
use oott.Db.PushTokens.{list, delete_many}
use oott.Db.PushTokens.Pruning.{IsPruned, delete_many_atomic}
use oott.Notify.Relay.{
  deleted_then, Relay, RelayRequest, RelayTokenResult, dead_tokens, delivered_count, after_answer,
  after_list, send,
}

-- The request of a push to some tokens.
abbrev pub request_for : List PushToken → Text → Text → RelayRequest
request_for tokens title body = record {
  tokens = map (λ t. t.token) tokens;
  title = title;
  body = body;
}

-- A list that holds exactly the stored tokens, in the order of their ids.
abbrev pub AreStored : List PushToken → Tables → Type 0
AreStored tokens t =
    Perm tokens t.push_tokens × IsOrdered (λ (a b : PushToken). leb a.id b.id) tokens

-- Where tokens are stored and the relay answered the request for all of them, exactly the tokens
-- that it named dead are gone.
abbrev pub IsPushed : Relay → Push → Text → Text → Tables → Tables → ℕ → Type 0
IsPushed relay config title body before after delivered =
    (tokens : List PushToken) × (results : List RelayTokenResult) × (tokens ≢ [])
    × AreStored tokens before
    × (relay config.relay_url (request_for tokens title body) ≡ some results)
    × (delivered ≡ delivered_count results)
    × ((deleted : ℕ) × IsPruned (dead_tokens results) before after deleted)

pushed :
    (relay : Relay) (config : Push) (title body : Text) (tokens : List PushToken)
    (results : List RelayTokenResult) (before : Tables) (r : Result DbError ℕ × World)
    → tokens ≢ []
    → AreStored tokens before
    → relay config.relay_url (request_for tokens title body) ≡ some results
    → Outcome (r.1.tables ≡ before) (IsPruned (dead_tokens results) before r.1.tables) r.0
    → Outcome
        ((deleted_then (delivered_count results) r).1.tables ≡ before)
        (IsPushed relay config title body before
          (deleted_then (delivered_count results) r).1.tables)
        (deleted_then (delivered_count results) r).0
pushed relay config title body tokens results before (ok n, w) some_tokens stored e h =
    (tokens, results, some_tokens, stored, e, refl, (n, h))
pushed relay config title body tokens results before (err e, w) some_tokens stored f h = h

le_total : (a b : ℕ) → (leb a b || leb b a) ≡ true
le_total a b = ground arith

inr_outcome :
    {E A : Type 0} (F : Type 0) (P Q : A → Type 0) (r : Result E A)
    → Outcome F Q r
    → Outcome F (λ a. P a ⊎ Q a) r
inr_outcome F P Q (ok a) h = inr h
inr_outcome F P Q (err e) h = h

after_answer-outcome :
    (env : Env) (relay : Relay) (config : Push) (title body : Text) (tokens : List PushToken)
    (answer : Option (List RelayTokenResult)) (w : World)
    → tokens ≢ []
    → AreStored tokens w.tables
    → relay config.relay_url (request_for tokens title body) ≡ answer
    → Outcome
        ((after_answer env answer w).1.tables ≡ w.tables)
        (IsPushed relay config title body w.tables (after_answer env answer w).1.tables)
        (after_answer env answer w).0
unfolding after_answer
after_answer-outcome env relay config title body tokens none w some_tokens stored e = refl
after_answer-outcome env relay config title body tokens (some results) w some_tokens stored e =
    let dead = dead_tokens results in
    pushed relay config title body tokens results w.tables (delete_many env dead w) some_tokens
      stored e (delete_many_atomic env dead w)

-- A push that had no token to go to, and what a push leaves where it does not fail.
abbrev pub IsSent : Relay → Push → Text → Text → Tables → Tables → ℕ → Type 0
IsSent relay config title body before after n =
    ((before.push_tokens ≡ []) × (n ≡ 0) × (after ≡ before))
    ⊎ IsPushed relay config title body before after n

insert_by-not_nil :
    (b : PushToken → PushToken → Bool) (x : PushToken) (ys : List PushToken) → insert_by b x ys ≢ []
unfolding insert_by
insert_by-not_nil b x [] e = cc
insert_by-not_nil b x (y ∷ ys) e = ground arith

order_by-nil :
    (b : PushToken → PushToken → Bool) (xs : List PushToken) → order_by b xs ≡ [] → xs ≡ []
unfolding order_by
order_by-nil b [] e = refl
order_by-nil b (x ∷ xs) e = absurd (insert_by-not_nil b x (order_by b xs) e)

abbrev by_id : PushToken → PushToken → Bool
by_id a b = leb a.id b.id

after_list-outcome :
    (env : Env) (relay : Relay) (config : Push) (title body : Text)
    (r : Result DbError (List PushToken) × World)
    → Outcome Unit (λ tokens. tokens ≡ order_by by_id r.1.tables.push_tokens) r.0
    → Outcome
        ((after_list env relay config title body r).1.tables ≡ r.1.tables)
        (IsSent relay config title body r.1.tables
          (after_list env relay config title body r).1.tables)
        (after_list env relay config title body r).0
unfolding after_list
after_list-outcome env relay config title body (err e, w) h = refl
after_list-outcome env relay config title body (ok [], w) h =
    inl (order_by-nil by_id w.tables.push_tokens (sym h), refl, refl)
after_list-outcome env relay config title body (ok (p ∷ ps), w) h =
    let answer = relay config.relay_url (request_for (p ∷ ps) title body) in
    let r = after_answer env answer w in
    let rows = w.tables.push_tokens in
    let total = λ (a b : PushToken). le_total a.id b.id in
    let stored =
      subst (λ (tokens : List PushToken). AreStored tokens w.tables) (sym h)
        (order_by-Perm by_id rows, order_by-IsOrdered by_id total rows) in
    inr_outcome (r.1.tables ≡ w.tables) (λ n. (rows ≡ []) × (n ≡ 0) × (r.1.tables ≡ w.tables))
      (IsPushed relay config title body w.tables r.1.tables) r.0
      (after_answer-outcome env relay config title body (p ∷ ps) answer w (λ e. cc) stored refl)

list-tables : (env : Env) (w : World) → (list env w).1.tables ≡ w.tables
unfolding list
list-tables env w = ground arith

list-tokens :
    (env : Env) (w : World)
    → Outcome Unit
        (λ tokens. tokens ≡ order_by by_id (list env w).1.tables.push_tokens)
        (list env w).0
unfolding list
list-tokens env w = ground arith

-- Whatever fails: a push through the relay either fails and changes no table, or no token is stored,
-- it counts no delivery and changes no table, or the relay answered the request for exactly the
-- stored tokens, in the order of their ids, its answer counts as many deliveries as are returned, and
-- exactly the tokens that it names dead are deleted.
pub send-outcome :
    (env : Env) (relay : Relay) (config : Push) (title body : Text) (w : World)
    → Outcome
        ((send env relay config title body w).1.tables ≡ w.tables)
        (IsSent relay config title body w.tables (send env relay config title body w).1.tables)
        (send env relay config title body w).0
unfolding send
send-outcome env relay config title body w =
    subst
      (λ t.
        Outcome ((send env relay config title body w).1.tables ≡ t)
          (IsSent relay config title body t (send env relay config title body w).1.tables)
          (send env relay config title body w).0)
      (list-tables env w)
      (after_list-outcome env relay config title body (list env w) (list-tokens env w))
