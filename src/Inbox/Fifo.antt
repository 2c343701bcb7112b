-- ===== src/Inbox/Fifo.antt =====
-- The queue under any interleaving of the thread that pushes and the one that takes.
use mathlib.Core.List.{append_assoc, append-nil}
use c_cometd_client.Prelude.{◌≡◌, sym, ap, ◌∙◌, arith, none, some, List, [], ◌∷◌, ◌++◌}
use c_cometd_client.Inbox.{inbox_push, inbox_take}

module _ {Node : Type 0} where
  pub inbox_push-append : (queue msgs : List Node) → inbox_push queue msgs ≡ queue ++ msgs
  unfolding inbox_push
  inbox_push-append queue [] = sym (append-nil queue)
  inbox_push-append queue (m ∷ msgs) =
      inbox_push-append (queue ++ m ∷ []) msgs ∙ append_assoc queue (m ∷ []) msgs

  -- A step of either thread, with the messages that it pushes and those that it takes. A take that
  -- times out takes nothing.
  pub data Step : List Node → List Node → List Node → List Node → Type 0 where
    push : {queue : List Node} (msgs : List Node) → Step queue msgs [] (inbox_push queue msgs)
    take :
        {queue queue' : List Node} {msg : Node}
        → inbox_take queue ≡ (some msg, queue')
        → Step queue [] (msg ∷ []) queue'
    time_out :
        {queue queue' : List Node} → inbox_take queue ≡ (none, queue') → Step queue [] [] queue'

  -- A run, with all that was pushed and all that was taken, in order.
  pub data Run : List Node → List Node → List Node → List Node → Type 0 where
    start : {queue : List Node} → Run queue [] [] queue
    step :
        {queue queue' queue'' pushed pushed' taken taken' : List Node}
        → Step queue pushed taken queue'
        → Run queue' pushed' taken' queue''
        → Run queue (pushed ++ pushed') (taken ++ taken') queue''

  inbox_take-cons :
      (queue queue' : List Node) (msg : Node)
      → inbox_take queue ≡ (some msg, queue')
      → queue ≡ msg ∷ queue'
  unfolding inbox_take
  inbox_take-cons [] queue' msg e = ground arith
  inbox_take-cons (m ∷ queue) queue' msg e = ground arith

  inbox_take-none : (queue queue' : List Node) → inbox_take queue ≡ (none, queue') → queue ≡ queue'
  unfolding inbox_take
  inbox_take-none [] queue' e = ground arith
  inbox_take-none (m ∷ queue) queue' e = ground arith

  Step-fifo :
      {queue pushed taken queue' : List Node}
      → Step queue pushed taken queue'
      → queue ++ pushed ≡ taken ++ queue'
  Step-fifo {queue = queue} (push msgs) = sym (inbox_push-append queue msgs)
  Step-fifo {queue = queue} {queue' = queue'} (take e) =
      append-nil queue ∙ inbox_take-cons queue queue' _ e
  Step-fifo {queue = queue} {queue' = queue'} (time_out e) =
      append-nil queue ∙ inbox_take-none queue queue' e

  -- However pushes and takes interleave: what was in the queue with what was pushed, in order, is what
  -- was taken, in order, with what is left. No message is lost, doubled, or overtaken by another.
  pub Run-fifo :
      {queue pushed taken queue' : List Node}
      → Run queue pushed taken queue'
      → queue ++ pushed ≡ taken ++ queue'
  Run-fifo {queue = queue} start = append-nil queue
  Run-fifo {queue = queue} {queue' = queue'}
        (step {queue' = mid} {pushed = p} {pushed' = p'} {taken = t} {taken' = t'} s r) =
      sym (append_assoc queue p p')
      ∙ ap (λ l. l ++ p') (Step-fifo s)
      ∙ append_assoc t mid p'
      ∙ ap (◌++◌ t) (Run-fifo r)
      ∙ sym (append_assoc t t' queue')
