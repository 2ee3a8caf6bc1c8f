-- ===== src/Rpc/Controller.antt =====
-- include/rpc/rpc_controller.h: the error state of one call.
use rpc_framework.Base.{Bool, true, false, List, [], Byte}

pub record Controller : Type 0 where
  pub is_failed : Bool
  pub err_text : List Byte

abbrev pub init : Controller
init = record { is_failed = false; err_text = [] }

unfoldable pub reset : Controller → Controller
reset c = record { is_failed = false; err_text = [] }

unfoldable pub set_failed : List Byte → Controller → Controller
set_failed reason c = record { is_failed = true; err_text = reason }
