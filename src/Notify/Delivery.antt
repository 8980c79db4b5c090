-- ===== src/Notify/Delivery.antt =====
-- backend/src/notifications/delivery.rs: the bounded queue between the scanners and the delivery
-- loop.
use oott.Prelude.{ℕ, [], ◌∷◌, ◌++◌, ◌&&◌, length, ltb, if◌then◌else◌}
use oott.Prelude.Text.{Text}
use oott.Db.{World}

abbrev pub delivery_queue_capacity : ℕ
delivery_queue_capacity = 100

-- `enqueue`: where the loop does not run, or its queue is full, the request is dropped.
unfoldable pub enqueue : Text → Text → World → World
enqueue title body w =
    if w.delivery_tx && ltb (length w.queue) delivery_queue_capacity
    then record w { queue = w.queue ++ record { title = title; body = body } ∷ [] }
    else w
