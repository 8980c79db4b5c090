-- ===== src/Web/Notifications/Marking.antt =====
-- What a sequence of requests about notifications leaves of their flags.
use oott.Prelude.{
  ℕ, suc, Bool, true, false, ◌≡◌, refl, sym, ◌∙◌, ap, List, [], ◌∷◌, map, update_where,
  if◌then◌else◌, arith,
}
use oott.Model.Notification.{Notification}
use oott.Db.{World, Env}
use oott.Db.Notifications as Store
use oott.Db.Notifications.{has_id}
use oott.Web.Notifications.{read, mark_as_new, mark_all_as_old}

-- The requests that change a flag.
pub data NoticeCall : Type 0 where
  reads marks_as_new : (id : ℕ) → NoticeCall
  marks_all_as_old : NoticeCall

unfoldable pub call_notices : Env → NoticeCall → World → World
unfolding read mark_as_new mark_all_as_old
call_notices env (reads id) w = (read env id w).1
call_notices env (marks_as_new id) w = (mark_as_new env id w).1
call_notices env marks_all_as_old w = (mark_all_as_old env w).1

unfoldable pub run_notices : Env → List NoticeCall → World → World
unfolding call_notices
run_notices env [] w = w
run_notices env (c ∷ calls) w = run_notices env calls (call_notices env c w)

-- The flag of a notification after a request, and after all of them.
abbrev pub flag_after : NoticeCall → Notification → Bool
flag_after (reads id) n = if has_id id n then false else n.is_new
flag_after (marks_as_new id) n = if has_id id n then true else n.is_new
flag_after marks_all_as_old n = false

abbrev pub after_call : NoticeCall → Notification → Notification
after_call c n = record n { is_new = flag_after c n }

abbrev pub flagged : List NoticeCall → Notification → Notification
flagged [] n = n
flagged (c ∷ calls) n = flagged calls (after_call c n)

module _ (env : Env) (sound : (n : ℕ) → env.db_fails n ≡ false) where
  marked :
      (p : Notification → Bool) (flag : Bool) (c : NoticeCall) (ns : List Notification)
      → ((n : Notification) → (if p n then flag else n.is_new) ≡ flag_after c n)
      → update_where p (λ n. record n { is_new = flag }) ns ≡ map (after_call c) ns
  marked p flag c [] h = refl
  marked p flag c (n ∷ ns) h = ground (arith, h n, marked p flag c ns h)

  call_notices-map :
      (c : NoticeCall) (w : World)
      → (call_notices env c w).tables.notifications ≡ map (after_call c) w.tables.notifications
  unfolding call_notices Store.read Store.mark_as_old Store.mark_as_new Store.mark_all_as_old
  call_notices-map (reads id) w =
      let rows = marked (has_id id) false (reads id) w.tables.notifications (λ n. refl) in
      ground (
        arith,
        sound w.db_calls,
        sound (suc w.db_calls),
        sound (suc (suc w.db_calls)),
        sound (suc (suc (suc w.db_calls))),
        rows,
      )
  call_notices-map (marks_as_new id) w =
      let rows = marked (has_id id) true (marks_as_new id) w.tables.notifications (λ n. refl) in
      ground (arith, sound w.db_calls, sound (suc w.db_calls), rows)
  call_notices-map marks_all_as_old w =
      let rows =
        marked (λ n. n.is_new) false marks_all_as_old w.tables.notifications (λ n. ground arith) in
      ground (arith, sound w.db_calls, sound (suc w.db_calls), rows)

map-twice :
    (f g : Notification → Notification) (ns : List Notification)
    → map f (map g ns) ≡ map (λ n. f (g n)) ns
map-twice f g [] = refl
map-twice f g (n ∷ ns) = ap (λ r. f (g n) ∷ r) (map-twice f g ns)

map-same : (ns : List Notification) → map (λ n. n) ns ≡ ns
map-same [] = refl
map-same (n ∷ ns) = ap (λ r. n ∷ r) (map-same ns)

-- Where no call of the database fails, any sequence of requests that read notifications, mark one as
-- new or mark all as old leaves every stored notification as it was but for its flag, which is the
-- one that the last of these requests that concerns it has set: off if it was read or all were
-- marked as old, on if it was marked as new, and as it was if none concerns it.
pub run_notices-flagged :
    (env : Env) (calls : List NoticeCall) (w : World)
    → ((n : ℕ) → env.db_fails n ≡ false)
    → (run_notices env calls w).tables.notifications ≡ map (flagged calls) w.tables.notifications
unfolding run_notices
run_notices-flagged env [] w sound = sym (map-same w.tables.notifications)
run_notices-flagged env (c ∷ calls) w sound =
    run_notices-flagged env calls (call_notices env c w) sound
    ∙ ap (map (flagged calls)) (call_notices-map env sound c w)
    ∙ map-twice (flagged calls) (after_call c) w.tables.notifications
