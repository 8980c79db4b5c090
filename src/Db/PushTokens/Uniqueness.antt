-- ===== src/Db/PushTokens/Uniqueness.antt =====
-- The token is a key of its table: registering an app again changes its row.
use oott.Prelude.{
  ℕ, Bool, false, not, ◌≡◌, refl, ap, List, [], ◌∷◌, ◌++◌, any, keep, update_where, arith,
  any-append, any-keep, any-update_where, Bool-cases, inl, inr,
}
use oott.Prelude.Text.{Text, text_eq, text_eq_iff}
use oott.Model.PushToken.{PushToken, PushPlatform}
use oott.Db.State.{World, Env, Tables, Result, ok, err, DbError, Outcome}
use mathlib.Core.Path.{subst, sym}
use oott.Db.PushTokens.{has_token, upsert_rows, upsert, delete, delete_many}
use oott.Db.PushTokens.Pruning.{is_listed, IsPruned, delete_many_atomic}

-- No two rows have the same token.
abbrev pub HasUniqueTokens : List PushToken → Type 0
HasUniqueTokens [] = Unit
HasUniqueTokens (p ∷ ps) = (any (has_token p.token) ps ≡ false) × HasUniqueTokens ps

text_eq_comm : (s t : Text) → text_eq s t ≡ text_eq t s
text_eq_comm s t = ground (arith, text_eq_iff s t, text_eq_iff t s)

HasUniqueTokens-append :
    (ps : List PushToken) (p : PushToken)
    → HasUniqueTokens ps
    → any (has_token p.token) ps ≡ false
    → HasUniqueTokens (ps ++ p ∷ [])
HasUniqueTokens-append [] p h k = (refl, tt)
HasUniqueTokens-append (q ∷ ps) p (u, h) k = (
  ground (arith, any-append (has_token q.token) ps (p ∷ []), text_eq_comm q.token p.token),
  HasUniqueTokens-append ps p h (ground arith),
)

HasUniqueTokens-keep :
    (q : PushToken → Bool) (ps : List PushToken) → HasUniqueTokens ps → HasUniqueTokens (keep q ps)
HasUniqueTokens-keep q [] h = tt
HasUniqueTokens-keep q (p ∷ ps) (u, h) =
    ground (arith, HasUniqueTokens-keep q ps h, any-keep (has_token p.token) q ps u)

HasUniqueTokens-update_where :
    (q : PushToken → Bool) (f : PushToken → PushToken)
    → ((p : PushToken) → (f p).token ≡ p.token)
    → (ps : List PushToken) → HasUniqueTokens ps
    → HasUniqueTokens (update_where q f ps)
HasUniqueTokens-update_where q f same [] h = tt
HasUniqueTokens-update_where q f same (p ∷ ps) (u, h) =
    let kept =
      λ (t : Text). any-update_where (has_token t) q f (λ x. ap (λ k. text_eq k t) (same x)) ps in
    elim (Bool-cases (q p)) [
      | inl e ↦ rw (e, same p, kept p.token) (u, HasUniqueTokens-update_where q f same ps h)
      | inr e ↦ rw (e, kept p.token) (u, HasUniqueTokens-update_where q f same ps h)
    ]

-- The calls that change the table.
pub data TokenCall : Type 0 where
  upserts : (token : Text) (platform : PushPlatform) → TokenCall
  deletes : (token : Text) → TokenCall
  prunes : (tokens : List Text) → TokenCall

unfoldable pub run_token_call : Env → TokenCall → World → World
unfolding upsert delete delete_many
run_token_call env (upserts token platform) w = (upsert env token platform w).1
run_token_call env (deletes token) w = (delete env token w).1
run_token_call env (prunes tokens) w = (delete_many env tokens w).1

upsert_rows-HasUniqueTokens :
    (token : Text) (platform : PushPlatform) (at : ℕ) (ps : List PushToken)
    → HasUniqueTokens ps
    → HasUniqueTokens (upsert_rows token platform at ps)
unfolding upsert_rows
upsert_rows-HasUniqueTokens token platform at ps h = elim (Bool-cases (any (has_token token) ps)) [
  | inl e ↦ rw e (
      HasUniqueTokens-update_where (has_token token)
        (λ p. record p { platform = platform; last_seen = at }) (λ p. refl) ps h)
  | inr e ↦ rw e (HasUniqueTokens-append ps _ h e)
]

pruned-HasUniqueTokens :
    (tokens : List Text) (before : Tables) (r : Result DbError ℕ × World)
    → HasUniqueTokens before.push_tokens
    → Outcome (r.1.tables ≡ before) (IsPruned tokens before r.1.tables) r.0
    → HasUniqueTokens r.1.tables.push_tokens
pruned-HasUniqueTokens tokens before (ok n, w) h p =
    subst HasUniqueTokens (sym p.rows)
      (HasUniqueTokens-keep (λ q. not (is_listed tokens q)) before.push_tokens h)
pruned-HasUniqueTokens tokens before (err e, w) h p =
    subst (λ (t : Tables). HasUniqueTokens t.push_tokens) (sym p) h

run_token_call-HasUniqueTokens :
    (env : Env) (c : TokenCall) (w : World)
    → HasUniqueTokens w.tables.push_tokens
    → HasUniqueTokens (run_token_call env c w).tables.push_tokens
unfolding run_token_call
run_token_call-HasUniqueTokens env (upserts token platform) w h = ground (
  arith,
  upsert_rows-HasUniqueTokens token platform (env.clock w.clock_reads) w.tables.push_tokens h,
)
run_token_call-HasUniqueTokens env (deletes token) w h =
    ground (arith, HasUniqueTokens-keep (λ p. not (has_token token p)) w.tables.push_tokens h)
run_token_call-HasUniqueTokens env (prunes tokens) w h =
    pruned-HasUniqueTokens tokens w.tables (delete_many env tokens w) h
      (delete_many_atomic env tokens w)

unfoldable pub run_token_calls : Env → List TokenCall → World → World
unfolding run_token_call
run_token_calls env [] w = w
run_token_calls env (c ∷ cs) w = run_token_calls env cs (run_token_call env c w)

-- Whatever calls are made on the table of the push tokens, and whichever of them fail, a table with
-- at most one row for each token keeps that.
pub run_token_calls-HasUniqueTokens :
    (env : Env) (cs : List TokenCall) (w : World)
    → HasUniqueTokens w.tables.push_tokens
    → HasUniqueTokens (run_token_calls env cs w).tables.push_tokens
unfolding run_token_calls
run_token_calls-HasUniqueTokens env [] w h = h
run_token_calls-HasUniqueTokens env (c ∷ cs) w h =
    run_token_calls-HasUniqueTokens env cs (run_token_call env c w)
      (run_token_call-HasUniqueTokens env c w h)
