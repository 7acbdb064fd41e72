-- ===== src/Ws/Wasm/Errors.antt =====
-- The errors and statuses of the tightbeam crate, as far as ws/tightbeam-ws-wasm/src names them.
-- `upstream` is any other error of that crate and of those it stands on.
pub data TransitStatus : Type 0 where
  ok_status cancelled unknown invalid_argument deadline_exceeded not_found already_exists
        permission_denied resource_exhausted failed_precondition aborted out_of_range unimplemented
        internal unavailable data_loss unauthenticated :
      TransitStatus

pub TransitStatus-discrete : Discrete TransitStatus
TransitStatus-discrete = hlevel

pub data TightBeamError (Fault : Type 0) : Type 0 where
  invalid_metadata invalid_body missing_signature missing_response : TightBeamError Fault
  work_refused : TransitStatus → TightBeamError Fault
  upstream : Fault → TightBeamError Fault
