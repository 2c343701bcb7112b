-- ===== src/Inbox.antt =====
-- src/inbox.c: the queue between the thread that receives and the one that listens. Each operation
-- holds the mutex, so it is one step on the queue, which has the oldest message first.
pub mod Fifo
use c_cometd_client.Prelude.{Option, none, some, List, [], ◌∷◌, ◌++◌}

module _ {Node : Type 0} where
  unfoldable pub inbox_push_msg : List Node → Node → List Node
  inbox_push_msg queue node = queue ++ node ∷ []

  -- The loop over the messages of a payload.
  unfoldable pub inbox_push : List Node → List Node → List Node
  unfolding inbox_push_msg
  inbox_push queue [] = queue
  inbox_push queue (msg ∷ msgs) = inbox_push (inbox_push_msg queue msg) msgs

  -- The queue is that at the end of the wait; where it is empty still, the wait has timed out.
  unfoldable pub inbox_take : List Node → Option Node × List Node
  inbox_take [] = (none, [])
  inbox_take (node ∷ queue) = (some node, queue)
