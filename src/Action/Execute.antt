-- ===== src/Action/Execute.antt =====
-- `_execute_with_retry` and the loop over the mapped operations.
use processguard_ai.World.{World}
use processguard_ai.Cmms.{
  request_reorder, returned, low_priority, create_work_order, medium_priority, raised_cmms_error,
  request, Body, Request, high_priority, CallResult, Server, PriorityWord,
}
use processguard_ai.Incident.{
  succeeded, product_reorder, pending, work_order, failed, ActionOutcome, Uuid, CmmsKind,
}
use processguard_ai.Mapping.{CmmsOperation, text_or_empty}
use processguard_ai.Db.{record_action_execution, IdText}
use processguard_ai.Base.{
  ℕ, Option, none, some, List, [], ◌∷◌, ◌++◌, leb, ◌==◌, if◌then◌else◌, is_empty, Text,
}

pub record Execution : Type 0 where
  pub kind : CmmsKind
  pub reference : Text
  pub source_action : Text

pub record Failure : Type 0 where
  pub kind : CmmsKind
  pub description : Text
  pub product_key : Text
  pub error : Text

unfoldable pub priority_word : ℕ → PriorityWord
priority_word p =
    if leb p 1 then high_priority else if p == 2 then medium_priority else low_priority

abbrev first_text : Option Text → Option Text → Text
first_text (some (c ∷ t)) other = c ∷ t
first_text (some []) other = text_or_empty other
first_text none other = text_or_empty other

unfoldable pub reference_of : CmmsKind → Body → Text
reference_of work_order b = first_text b.id b.work_order_id
reference_of product_reorder b = first_text b.id b.reorder_id

-- `operation.description or operation.source_action` of a recorded attempt.
unfoldable pub attempt_description : CmmsOperation → Text
attempt_description op = if is_empty op.description then op.source_action else op.description

unfoldable pub record_attempt : IdText → CmmsOperation → ActionOutcome → Option Text → World → World
record_attempt t op outcome reference w = record w {
  db = record_action_execution t op.kind (attempt_description op) outcome reference w.db;
}

-- The CMMS call of an operation.
unfoldable pub operation_request : IdText → Option Uuid → CmmsOperation → Request
unfolding priority_word
operation_request t equipment op = by_kind op.kind
  where
    by_kind : CmmsKind → Request
    by_kind work_order = create_work_order equipment op.description (priority_word op.priority) t
    by_kind product_reorder = request_reorder op.product_key op.quantity t

-- How one operation ends: its record, or the text of the CmmsError.
pub data Attempt : Type 0 where
  executed : Execution → Attempt
  cmms_failure : Text → Attempt

pub record Progress : Type 0 where
  pub executions : List Execution
  pub failures : List Failure

-- The `try` / `except CmmsError` of the loop: a failure is kept and recorded.
unfoldable pub after_operation :
    IdText → CmmsOperation → Attempt → Progress → World → Progress × World
after_operation t op (executed x) p w = (record p { executions = p.executions ++ x ∷ [] }, w)
after_operation t op (cmms_failure e) p w = (
  record p {
    failures =
        p.failures
        ++ record {
          kind = op.kind;
          description = op.description;
          product_key = op.product_key;
          error = e;
        }
          ∷ [];
  },
  record_attempt t op failed none w,
)

-- The result of a CMMS call, recorded if it succeeded.
unfoldable pub after_call : IdText → CmmsOperation → CallResult → World → Attempt × World
after_call t op (raised_cmms_error e) w = (cmms_failure e, w)
after_call t op (returned body) w =
    let reference = reference_of op.kind body in
    (
      executed (record { kind = op.kind; reference = reference; source_action = op.source_action }),
      record_attempt t op succeeded (some reference) w,
    )

module _ (server : Server) (attempts : ℕ) where
  unfoldable pub call : Request → World → CallResult × World
  call r w = let (out, net) = request server attempts r w.net in (out, record w { net = net })

  unfoldable pub execute_with_retry : IdText → CmmsOperation → Option Uuid → World → Attempt × World
  execute_with_retry t op equipment w =
      let (out, w2) =
        call (operation_request t equipment op) (record_attempt t op pending none w) in
      after_call t op out w2

  -- `for operation in mapping.operations`.
  unfoldable pub run_operations :
      IdText → Option Uuid → List CmmsOperation → Progress → World → Progress × World
  run_operations t equipment [] p w = (p, w)
  run_operations t equipment (op ∷ ops) p w =
      let (out, w2) = execute_with_retry t op equipment w in
      let (p3, w3) = after_operation t op out p w2 in run_operations t equipment ops p3 w3
