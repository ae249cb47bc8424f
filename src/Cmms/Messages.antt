-- ===== src/Cmms/Messages.antt =====
-- Requests to the CMMS, its responses, and the log of what the client did.
use processguard_ai.Db.{IdText}
use processguard_ai.Incident.{Float, Uuid}
use processguard_ai.Base.{ℕ, Bool, true, false, Option, List, Text}

-- The priority words that the Action Agent sends.
pub data PriorityWord : Type 0 where
  high_priority medium_priority low_priority : PriorityWord

pub data Request : Type 0 where
  create_work_order :
      (equipment : Option Uuid) (description : Text) (priority : PriorityWord) (source : IdText)
      → Request
  get_work_order : Text → Request
  list_work_orders : (equipment status : Option Text) → Request
  resolve_work_order : (work_order note : Text) → Request
  get_inventory : Text → Request
  request_reorder : (product_key : Text) (quantity : Float) (source : IdText) → Request

-- The fields of an answer that the agent reads.
pub record Body : Type 0 where
  pub id : Option Text
  pub work_order_id : Option Text
  pub reorder_id : Option Text
  pub status : Text
  pub equipment : Option Text
  pub description : Text
  pub resolution_note : Option Text

-- An answer with its status code, whose body may be no JSON; or a network error or timeout.
pub data Response : Type 0 where
  reply : ℕ → Option Body → Response
  network_error : Response

-- `sent` is one request on the wire, `slept n` a pause of n times the backoff.
pub data NetEvent : Type 0 where
  sent : Request → NetEvent
  slept : ℕ → NetEvent

-- What the server answers may depend on all that happened before.
abbrev pub Server : Type 0
Server = List NetEvent → Request → Response

-- A request that writes at the other end.
abbrev pub is_write : Request → Bool
is_write (create_work_order e d p s) = true
is_write (resolve_work_order w n) = true
is_write (request_reorder k q s) = true
is_write _ = false
