-- ===== src/RuntimeB/Unsupported.antt =====
-- runtime-b/handler.go: the operations that Runtime B does not support. They keep no state; the stream
-- among them yields the error as its one event.
use ne_kiro_samples.Base.{List, [], ◌∷◌, Error, unsupported_operation}
use ne_kiro_samples.RuntimeB.Events.{StreamEvent, error_event}

pub data OtherOperation : Type 0 where
  list_tasks get_task_push_config list_task_push_config set_task_push_config : OtherOperation
  delete_task_push_config get_extended_agent_card : OtherOperation

unfoldable pub on_other : OtherOperation → Error
on_other operation = unsupported_operation

unfoldable pub on_resubscribe_to_task : List StreamEvent
on_resubscribe_to_task = error_event unsupported_operation ∷ []
